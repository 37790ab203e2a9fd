-- ===== src/Fuzzy/Ranges.antt =====
-- `toHighlightRanges` covers exactly the given indices.
use tactile.Base.{
  ℕ, suc, ◌+◌, ◌≤◌, ◌<◌, Bool, ◌≡◌, ◌↔◌, refl, ◌∙◌, false, List, [], ◌∷◌, arith, ◌&&◌, ◌||◌, ◌==◌,
  leb, ltb, Bool-cases, inl, inr, All,
}
use tactile.Fuzzy.{range_loop, ranges_of, to_highlight_ranges, sort_indices}
use tactile.Fuzzy.Sorting.{
  member, IsSorted, Distinct, Distinct-sort_indices, member-sort_indices, IsSorted-sort_indices,
}

abbrev pub in_range : ℕ → ℕ × ℕ → Bool
in_range x (start, end) = leb start x && ltb x end

abbrev pub covered : ℕ → List (ℕ × ℕ) → Bool
covered x [] = false
covered x (r ∷ ranges) = in_range x r || covered x ranges

-- The ranges of the loop cover the open range and the indices still to come.
covered-range_loop :
    (x start end : ℕ) (xs : List ℕ)
    → start < end
    → All (λ y. start ≤ y) xs
    → IsSorted xs
    → covered x (range_loop start end xs) ≡ (in_range x (start, end) || member x xs)
unfolding range_loop
covered-range_loop x start end [] h k s = refl
covered-range_loop x start end (y ∷ ys) h k s =
    let grown = covered-range_loop x start (y + 1) ys (omega (arith, k.0)) k.1 s.1 in
    let closed = covered-range_loop x y (y + 1) ys (omega arith) s.0 s.1 in
    ground (arith, grown, closed, k.0)

covered-ranges_of : (x : ℕ) (xs : List ℕ) → IsSorted xs → covered x (ranges_of xs) ≡ member x xs
unfolding ranges_of
covered-ranges_of x [] s = refl
covered-ranges_of x (y ∷ ys) s =
    let all = covered-range_loop x y (y + 1) ys (omega arith) s.0 s.1 in ground (arith, all)

-- A character is highlighted exactly when its index is among the given ones.
pub covered-to_highlight_ranges :
    (x : ℕ) (indices : List ℕ) → covered x (to_highlight_ranges indices) ≡ member x indices
unfolding to_highlight_ranges
covered-to_highlight_ranges x indices =
    covered-ranges_of x (sort_indices indices) (IsSorted-sort_indices indices)
    ∙ member-sort_indices x indices

-- The ranges are nonempty, ascend from `bound`, and do not touch one another.
abbrev pub Separated : ℕ → List (ℕ × ℕ) → Type 0
Separated bound [] = Unit
Separated bound ((start, end) ∷ ranges) =
    (bound ≤ start) × (start < end) × Separated (suc end) ranges

-- Strictly ascending from `bound`.
abbrev Above : ℕ → List ℕ → Type 0
Above bound [] = Unit
Above bound (x ∷ xs) = (bound ≤ x) × Above (suc x) xs

Above-eq : (m n : ℕ) (ys : List ℕ) → m ≡ n → Above m ys → Above n ys
Above-eq m n ys e h = rw (← e) h

Separated-range_loop :
    (bound start end : ℕ) (xs : List ℕ)
    → bound ≤ start
    → start < end
    → Above end xs
    → Separated bound (range_loop start end xs)
unfolding range_loop
Separated-range_loop bound start end [] h k a = (h, k, tt)
Separated-range_loop bound start end (y ∷ ys) h k a = elim (Bool-cases (y == end)) [
  | inl e ↦ rw e (
      Separated-range_loop bound start (y + 1) ys h (omega (arith, a.0))
        (Above-eq (suc y) (y + 1) ys (omega arith) a.1))
  | inr e ↦
      let gap : suc end ≤ y = ground (arith, a.0) in
      rw e (
        h,
        k,
        Separated-range_loop (suc end) y (y + 1) ys gap (omega arith)
            (Above-eq (suc y) (y + 1) ys (omega arith) a.1),
      )
]

Separated-start :
    (bound start end : ℕ) (xs : List ℕ) → Separated bound (range_loop start end xs) → bound ≤ start
unfolding range_loop
Separated-start bound start end [] h = h.0
Separated-start bound start end (y ∷ ys) h = elim (Bool-cases (y == end)) [
  | inl e ↦ Separated-start bound start (y + 1) ys (rw (e, range_loop) at h)
  | inr e ↦
      let parts : Separated bound ((start, end) ∷ range_loop y (y + 1) ys) =
        rw (e, range_loop) at h in
      parts.0
]

-- Behind a last index `l`, separated ranges come from distinct indices.
Separated-distinct :
    (bound start l : ℕ) (xs : List ℕ)
    → IsSorted xs
    → Separated bound (range_loop start (l + 1) xs)
    → Above (l + 1) xs
unfolding range_loop
Separated-distinct bound start l [] s h = tt
Separated-distinct bound start l (y ∷ ys) s h = elim (Bool-cases (y == l + 1)) [
  | inl e ↦
      let rest = Separated-distinct bound start y ys s.1 (rw (e, range_loop) at h) in
      (ground arith, Above-eq (y + 1) (suc y) ys (omega arith) rest)
  | inr e ↦
      let parts : Separated bound ((start, l + 1) ∷ range_loop y (y + 1) ys) =
        rw (e, range_loop) at h in
      let gap = Separated-start (suc (l + 1)) y (y + 1) ys parts.2 in
      let rest = Separated-distinct (suc (l + 1)) y y ys s.1 parts.2 in
      (omega (arith, gap), Above-eq (y + 1) (suc y) ys (omega arith) rest)
]

Above-Distinct :
    (x bound : ℕ) (xs : List ℕ) → x < bound → Above bound xs → (member x xs ≡ false) × Distinct xs
Above-Distinct x bound [] h a = (refl, tt)
Above-Distinct x bound (y ∷ ys) h a =
    let here = Above-Distinct y (suc y) ys (omega arith) a.1 in
    let there = Above-Distinct x (suc y) ys (omega (arith, a.0)) a.1 in
    (ground (arith, there.0, a.0), here)

Distinct-Above : (x : ℕ) (xs : List ℕ) → IsSorted (x ∷ xs) → Distinct (x ∷ xs) → Above (suc x) xs
Distinct-Above x [] s d = tt
Distinct-Above x (y ∷ ys) s d = (ground (arith, s.0.0, d.0), Distinct-Above y ys s.1 d.1)

Separated-ranges_of : (xs : List ℕ) → IsSorted xs → Separated 0 (ranges_of xs) ↔ Distinct xs
unfolding ranges_of
Separated-ranges_of [] s = (λ h. tt, λ h. tt)
Separated-ranges_of (x ∷ xs) s = (
  λ h. Above-Distinct x (x + 1) xs (omega arith) (Separated-distinct 0 x x xs s.1 h),
  λ d.
      Separated-range_loop 0 x (x + 1) xs (omega arith) (omega arith)
        (Above-eq (suc x) (x + 1) xs (omega arith) (Distinct-Above x xs s d)),
)

-- The ranges are separated exactly when no index is given twice.
pub Separated-to_highlight_ranges :
    (indices : List ℕ) → Separated 0 (to_highlight_ranges indices) ↔ Distinct indices
unfolding to_highlight_ranges
Separated-to_highlight_ranges indices =
    let sorted = Separated-ranges_of (sort_indices indices) (IsSorted-sort_indices indices) in
    let same = Distinct-sort_indices indices in (λ h. same.1 (sorted.0 h), λ d. sorted.1 (same.0 d))
