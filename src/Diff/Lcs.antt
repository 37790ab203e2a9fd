-- ===== src/Diff/Lcs.antt =====
-- The table of `lcsDiff` holds the lengths of longest common subsequences.
use tactile.Base.{
  ℕ, zero, suc, ◌≤◌, max, ◌≡◌, refl, sym, ◌∙◌, false, List, [], ◌∷◌, arith, Text, text_eq,
  text_eq_iff, length, drop, get_or, if◌then◌else◌, Bool-cases, inl, inr, ◌⊎◌,
}
use tactile.Diff.{fill_row, zeros, table, cell}

-- The reference: the length of a longest common subsequence, by recursion on both lists.
unfoldable pub lcs : List Text → List Text → ℕ
lcs [] b = 0
lcs (x ∷ a) [] = 0
lcs (x ∷ a) (y ∷ b) = if text_eq x y then suc (lcs a b) else max (lcs a (y ∷ b)) (lcs (x ∷ a) b)

-- `s` is `a` with lines left out.
pub data Sub : List Text → List Text → Type 0 where
  done : Sub [] []
  skip : {s a : List Text} {x : Text} → Sub s a → Sub s (x ∷ a)
  keep : {s a : List Text} {x : Text} → Sub s a → Sub (x ∷ s) (x ∷ a)

Sub-tail : {z : Text} {t a : List Text} {x : Text} → Sub (z ∷ t) (x ∷ a) → Sub t a
Sub-tail (skip p) = drop_first p
  where
    drop_first : {z : Text} {t a : List Text} → Sub (z ∷ t) a → Sub t a
    drop_first (skip p) = skip (drop_first p)
    drop_first (keep p) = skip p
Sub-tail (keep p) = p

Sub-nil : {s : List Text} → Sub s [] → length s ≤ 0
Sub-nil done = omega arith

-- A subsequence leaves the first line out, or starts with it.
Sub-cons :
    {s a : List Text} {x : Text}
    → Sub s (x ∷ a)
    → Sub s a ⊎ ((t : List Text) × (s ≡ x ∷ t) × Sub t a)
Sub-cons (skip p) = inl p
Sub-cons (keep {s = t} p) = inr (t, refl, p)

-- `lcs` bounds every common subsequence.
pub length-le-lcs : (a b s : List Text) → Sub s a → Sub s b → length s ≤ lcs a b
unfolding lcs
length-le-lcs [] b s p q = omega (arith, Sub-nil p)
length-le-lcs (x ∷ a) [] s p q = omega (arith, Sub-nil q)
length-le-lcs (x ∷ a) (y ∷ b) [] p q = omega arith
length-le-lcs (x ∷ a) (y ∷ b) (z ∷ t) p q = elim (Bool-cases (text_eq x y)) [
  | inl e ↦ rw e (omega (arith, length-le-lcs a b t (Sub-tail p) (Sub-tail q)))
  | inr e ↦ rw e (elim (Sub-cons p) [
    | inl p' ↦ omega (arith, length-le-lcs a (y ∷ b) (z ∷ t) p' q)
    | inr (t₁, e₁, p') ↦ elim (Sub-cons q) [
      | inl q' ↦ omega (arith, length-le-lcs (x ∷ a) b (z ∷ t) p q')
      | inr (t₂, e₂, q') ↦ absurd (differ x y t₁ t₂ e (sym e₁ ∙ e₂))
    ]
  ])
]
  where
    differ : (x y : Text) (t u : List Text) → text_eq x y ≡ false → x ∷ t ≡ y ∷ u → ⊥
    differ x y t u e h = cc (e, (text_eq_iff x y).1 (cc))

zeros_lem : (b : List Text) (j : ℕ) → get_or (zeros b) j 0 ≡ 0
zeros_lem [] zero = refl
zeros_lem [] (suc j) = refl
zeros_lem (y ∷ b) zero = refl
zeros_lem (y ∷ b) (suc j) = zeros_lem b j

get_or-drop : (xs : List ℕ) (j : ℕ) → get_or (drop 1 xs) j 0 ≡ get_or xs (suc j) 0
get_or-drop [] j = refl
get_or-drop (x ∷ xs) j = refl

-- A row for `x ∷ a` from the row for `a`.
fill_row_lem :
    (x : Text) (a b : List Text) (below : List ℕ)
    → ((j : ℕ) → get_or below j 0 ≡ lcs a (drop j b))
    → (j : ℕ) → get_or (fill_row x b below) j 0 ≡ lcs (x ∷ a) (drop j b)
unfolding fill_row lcs
fill_row_lem x a [] below h zero = refl
fill_row_lem x a [] below h (suc j) = refl
fill_row_lem x a (y ∷ b) below h zero =
    let rest = fill_row_lem x a b (drop 1 below) (λ j. get_or-drop below j ∙ h (suc j)) 0 in
    ground (arith, rest, h 0, h 1)
fill_row_lem x a (y ∷ b) below h (suc j) =
    fill_row_lem x a b (drop 1 below) (λ j. get_or-drop below j ∙ h (suc j)) j

-- The cell at row `i` and column `j` is `lcs` of what is left of the two lists there.
pub cell-table : (a b : List Text) (i j : ℕ) → cell (table a b) i j ≡ lcs (drop i a) (drop j b)
unfolding table
cell-table [] b zero j = unfold lcs in zeros_lem b j
cell-table [] b (suc i) j = unfold lcs in refl
cell-table (x ∷ a) b zero j = fill_row_lem x a b (get_or (table a b) 0 []) (cell-table a b 0) j
cell-table (x ∷ a) b (suc i) j = cell-table a b i j
