-- ===== src/Fuzzy/Sorting.antt =====
-- Sorting the indices keeps them and puts them in order.
use tactile.Base.{
  ℕ, ◌≤◌, Bool, ◌≡◌, refl, sym, ap, ◌↔◌, ◌∙◌, false, List, [], ◌∷◌, arith, ◌||◌, ◌==◌, leb,
  Bool-cases, inl, inr, All,
}
use tactile.Fuzzy.{insert_sorted, sort_indices}

abbrev pub member : ℕ → List ℕ → Bool
member x [] = false
member x (y ∷ ys) = x == y || member x ys

-- Ascending, repetitions allowed.
abbrev pub IsSorted : List ℕ → Type 0
IsSorted [] = Unit
IsSorted (x ∷ xs) = All (λ y. x ≤ y) xs × IsSorted xs

member-insert_sorted :
    (z x : ℕ) (ys : List ℕ) → member z (insert_sorted x ys) ≡ (z == x || member z ys)
unfolding insert_sorted
member-insert_sorted z x [] = refl
member-insert_sorted z x (y ∷ ys) = ground (arith, member-insert_sorted z x ys)

pub member-sort_indices : (z : ℕ) (xs : List ℕ) → member z (sort_indices xs) ≡ member z xs
unfolding sort_indices
member-sort_indices z [] = refl
member-sort_indices z (x ∷ xs) =
    member-insert_sorted z x (sort_indices xs) ∙ ap (λ b. z == x || b) (member-sort_indices z xs)

All-le_trans : (x y : ℕ) (ys : List ℕ) → x ≤ y → All (λ z. y ≤ z) ys → All (λ z. x ≤ z) ys
All-le_trans x y [] h k = tt
All-le_trans x y (z ∷ zs) h k = (omega (arith, k.0), All-le_trans x y zs h k.1)

All-insert_sorted :
    (a x : ℕ) (ys : List ℕ) → a ≤ x → All (λ z. a ≤ z) ys → All (λ z. a ≤ z) (insert_sorted x ys)
unfolding insert_sorted
All-insert_sorted a x [] h k = (h, tt)
All-insert_sorted a x (y ∷ ys) h k = elim (Bool-cases (leb x y)) [
  | inl e ↦ rw e (h, k)
  | inr e ↦ rw e (k.0, All-insert_sorted a x ys h k.1)
]

IsSorted-insert_sorted : (x : ℕ) (ys : List ℕ) → IsSorted ys → IsSorted (insert_sorted x ys)
unfolding insert_sorted
IsSorted-insert_sorted x [] h = (tt, tt)
IsSorted-insert_sorted x (y ∷ ys) h = elim (Bool-cases (leb x y)) [
  | inl e ↦ let le : x ≤ y = ground arith in rw e ((le, All-le_trans x y ys le h.0), h)
  | inr e ↦
      let le : y ≤ x = ground arith in
      rw e (All-insert_sorted y x ys le h.0, IsSorted-insert_sorted x ys h.1)
]

pub IsSorted-sort_indices : (xs : List ℕ) → IsSorted (sort_indices xs)
unfolding sort_indices
IsSorted-sort_indices [] = tt
IsSorted-sort_indices (x ∷ xs) =
    IsSorted-insert_sorted x (sort_indices xs) (IsSorted-sort_indices xs)

-- No index occurs twice.
abbrev pub Distinct : List ℕ → Type 0
Distinct [] = Unit
Distinct (x ∷ xs) = (member x xs ≡ false) × Distinct xs

Distinct-insert_sorted :
    (x : ℕ) (ys : List ℕ) → (member x ys ≡ false) × Distinct ys ↔ Distinct (insert_sorted x ys)
unfolding insert_sorted
Distinct-insert_sorted x [] = (λ h. (refl, tt), λ h. (refl, tt))
Distinct-insert_sorted x (y ∷ ys) = elim (Bool-cases (leb x y)) [
  | inl e ↦ rw e (λ h. h, λ h. h)
  | inr e ↦ rw e (
    λ h. (
      ground (arith, member-insert_sorted y x ys, h.0, h.1.0),
      (Distinct-insert_sorted x ys).0 (ground (arith, h.0), h.1.1),
    ),
    λ h.
        let back = (Distinct-insert_sorted x ys).1 h.1 in
        (
          ground (arith, member-insert_sorted y x ys, h.0, back.0),
          (ground (arith, member-insert_sorted y x ys, h.0), back.1),
        ),
  )
]

pub Distinct-sort_indices : (xs : List ℕ) → Distinct xs ↔ Distinct (sort_indices xs)
unfolding sort_indices
Distinct-sort_indices [] = (λ h. h, λ h. h)
Distinct-sort_indices (x ∷ xs) =
    let step = Distinct-insert_sorted x (sort_indices xs) in
    let rest = Distinct-sort_indices xs in
    (
      λ h. step.0 (member-sort_indices x xs ∙ h.0, rest.0 h.1),
      λ h. let back = step.1 h in (sym (member-sort_indices x xs) ∙ back.0, rest.1 back.1),
    )
