-- ===== src/Fuzzy/Occurs.antt =====
-- `indexOf` finds the first occurrence at or behind the given position.
use tactile.Base.{
  ℕ, zero, suc, ◌+◌, ◌-◌, ◌≤◌, ◌≡◌, refl, sym, ap, ◌∙◌, true, some, none, [], ◌∷◌, arith, Text,
  text_eq, starts_with, drop, drop-drop, if◌then◌else◌, Bool-cases, inl, inr,
}
use tactile.Fuzzy.{find_at, index_of}

-- The text `needle` stands at position `i` of `hay`.
abbrev pub OccursAt : Text → Text → ℕ → Type 0
OccursAt hay needle i = starts_with (drop i hay) needle ≡ true

find_at_sound :
    (needle hay : Text) (at : ℕ) {f : ℕ}
    → find_at needle hay at ≡ some f
    → (k : ℕ) × (f ≡ at + k) × OccursAt hay needle k
unfolding find_at
find_at_sound needle [] at {f} h = nothing needle h
  where
    nothing :
        (needle : Text)
        → (if text_eq needle [] then some at else none) ≡ some f
        → (k : ℕ) × (f ≡ at + k) × OccursAt [] needle k
    nothing [] h = unfold text_eq in (0, ground arith, unfold starts_with in refl)
    nothing (x ∷ xs) h = unfold text_eq in (0, cc, cc)
find_at_sound needle (x ∷ xs) at {f} h = elim (Bool-cases (starts_with (x ∷ xs) needle)) [
  | inl e ↦ (0, ground arith, e)
  | inr e ↦
      let (k, same, occurs) = find_at_sound needle xs (suc at) {f = f} (ground arith) in
      (suc k, omega arith, occurs)
]

-- Any occurrence is found, or an earlier one.
find_at_first :
    (needle hay : Text) (at k : ℕ)
    → OccursAt hay needle k
    → (f : ℕ) × (find_at needle hay at ≡ some f) × (f ≤ at + k)
unfolding find_at
find_at_first needle [] at k h = (at, only needle k h, omega arith)
  where
    only :
        (needle : Text) (k : ℕ)
        → OccursAt [] needle k
        → (if text_eq needle [] then some at else none) ≡ some at
    only [] k h = unfold text_eq in refl
    only (x ∷ xs) zero h = unfold starts_with in cc h
    only (x ∷ xs) (suc k) h = unfold starts_with in cc h
find_at_first needle (x ∷ xs) at zero h = (at, rw h, omega arith)
find_at_first needle (x ∷ xs) at (suc k) h = elim (Bool-cases (starts_with (x ∷ xs) needle)) [
  | inl e ↦ (at, rw e, omega arith)
  | inr e ↦
      let (f, found, le) = find_at_first needle xs (suc at) k h in (f, rw e found, omega arith)
]

-- What `indexOf` returns is an occurrence at or behind `from`.
pub index_of_sound :
    (hay needle : Text) (from : ℕ) {f : ℕ}
    → index_of hay needle from ≡ some f
    → (from ≤ f) × OccursAt hay needle f
unfolding index_of
index_of_sound hay needle from {f} h =
    let (k, same, occurs) = find_at_sound needle (drop from hay) from {f = f} h in
    (
      omega arith,
      ap (λ t. starts_with t needle) (ap (λ n. drop n hay) same ∙ sym (drop-drop k from hay))
          ∙ occurs,
    )

-- An occurrence at or behind `from` is found, or an earlier one.
pub index_of_first :
    (hay needle : Text) (from i : ℕ)
    → from ≤ i
    → OccursAt hay needle i
    → (f : ℕ) × (index_of hay needle from ≡ some f) × (f ≤ i)
unfolding index_of
index_of_first hay needle from i le h =
    let same : from + (i - from) ≡ i = omega arith in
    let there =
      ap (λ t. starts_with t needle) (drop-drop (i - from) from hay ∙ ap (λ n. drop n hay) same)
      ∙ h in
    let (f, found, first) = find_at_first needle (drop from hay) from (i - from) there in
    (f, found, omega arith)
