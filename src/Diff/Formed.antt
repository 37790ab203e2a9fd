-- ===== src/Diff/Formed.antt =====
-- Every line of a diff is numbered on the sides that it belongs to.
use tactile.Base.{
  ℕ, suc, ◌+◌, ◌-◌, ◌*◌, min, Option, some, none, List, [], ◌∷◌, ◌++◌, map, Text, text_eq, length,
  take, drop, ltb, Bool-cases, inl, inr, All, All-append, leb,
}
use tactile.Diff.{
  DiffLineType, same, add, del, DiffLine, Op, same_lines, deleted_lines, added_lines, number_line,
  lcs_diff, diff_middle, max_cells, diff_documents, diff_lines, lines_of, common_prefix,
  common_suffix, slice, walk, additions, deletions, cell, table, shifted,
}

-- A line has a number on each side that it belongs to, and on no other.
abbrev pub Fits : DiffLineType → Option ℕ → Option ℕ → Type 0
Fits same (some i) (some j) = Unit
Fits add none (some j) = Unit
Fits del (some i) none = Unit
Fits _ _ _ = ⊥

abbrev pub IsFormed : DiffLine → Type 0
IsFormed l = Fits l.type l.old_number l.new_number

abbrev IsFormedOp : Op → Type 0
IsFormedOp o = Fits o.type o.a_index o.b_index

formed-deletions : (i : ℕ) (a : List Text) → All IsFormedOp (deletions i a)
unfolding deletions
formed-deletions i [] = tt
formed-deletions i (x ∷ a) = (tt, formed-deletions (suc i) a)

formed-additions : (j : ℕ) (b : List Text) → All IsFormedOp (additions j b)
unfolding additions
formed-additions j [] = tt
formed-additions j (y ∷ b) = (tt, formed-additions (suc j) b)

formed-walk :
    (dp : List (List ℕ)) (i : ℕ) (a : List Text) (j : ℕ) (b : List Text)
    → All IsFormedOp (walk dp i a j b)
unfolding walk
formed-walk dp i [] j b = formed-additions j b
formed-walk dp i (x ∷ a) j [] = formed-deletions i (x ∷ a)
formed-walk dp i (x ∷ a) j (y ∷ b) = elim (Bool-cases (text_eq x y)) [
  | inl e ↦ rw e (tt, formed-walk dp (suc i) a (suc j) b)
  | inr e ↦ elim (Bool-cases (leb (cell dp i (suc j)) (cell dp (suc i) j))) [
    | inl l ↦ rw (e, l) (tt, formed-walk dp (suc i) a j (y ∷ b))
    | inr l ↦ rw (e, l) (tt, formed-walk dp i (x ∷ a) (suc j) b)
  ]
]

formed-shifted :
    (p : ℕ) (t : DiffLineType) (i j : Option ℕ) → Fits t i j → Fits t (shifted p i) (shifted p j)
formed-shifted p same (some i) (some j) h = tt
formed-shifted p same (some i) none h = h
formed-shifted p same none j h = h
formed-shifted p add none (some j) h = tt
formed-shifted p add none none h = h
formed-shifted p add (some i) j h = h
formed-shifted p del (some i) none h = tt
formed-shifted p del (some i) (some j) h = h
formed-shifted p del none j h = h

IsFormed-number_line :
    (p : ℕ) (ops : List Op) → All IsFormedOp ops → All IsFormed (map (number_line p) ops)
unfolding number_line
IsFormed-number_line p [] h = tt
IsFormed-number_line p (o ∷ ops) h =
    (formed-shifted p o.type o.a_index o.b_index h.0, IsFormed-number_line p ops h.1)

IsFormed-same_lines : (xs : List Text) (i j : ℕ) → All IsFormed (same_lines xs i j)
unfolding same_lines
IsFormed-same_lines [] i j = tt
IsFormed-same_lines (x ∷ xs) i j = (tt, IsFormed-same_lines xs (suc i) (suc j))

IsFormed-deleted_lines : (xs : List Text) (i : ℕ) → All IsFormed (deleted_lines xs i)
unfolding deleted_lines
IsFormed-deleted_lines [] i = tt
IsFormed-deleted_lines (x ∷ xs) i = (tt, IsFormed-deleted_lines xs (suc i))

IsFormed-added_lines : (xs : List Text) (j : ℕ) → All IsFormed (added_lines xs j)
unfolding added_lines
IsFormed-added_lines [] j = tt
IsFormed-added_lines (x ∷ xs) j = (tt, IsFormed-added_lines xs (suc j))

IsFormed-diff_middle : (p : ℕ) (a b : List Text) → All IsFormed (diff_middle p a b).lines
unfolding diff_middle
IsFormed-diff_middle p a b = elim (Bool-cases (ltb max_cells (length a * length b))) [
  | inl big ↦
      rw big (
        All-append IsFormed _ _ (IsFormed-deleted_lines a (p + 1)) (IsFormed-added_lines b (p + 1)))
  | inr small ↦
      rw small
        (IsFormed-number_line p (lcs_diff a b) (unfold lcs_diff in formed-walk (table a b) 0 a 0 b))
]

IsFormed-diff_documents : (a b : List Text) → All IsFormed (diff_documents a b).lines
unfolding diff_documents
IsFormed-diff_documents a b =
    let p = common_prefix a b in
    let s = common_suffix a b (min (length a - p) (length b - p)) 0 in
    let a_mid = slice a p (length a - s) in
    let b_mid = slice b p (length b - s) in
    let tail = drop (length a - s) a in
    let i = length a - s + 1 in
    let j = length b - s + 1 in
    All-append IsFormed (same_lines (take p a) 1 1)
      ((diff_middle p a_mid b_mid).lines ++ same_lines tail i j)
      (IsFormed-same_lines (take p a) 1 1)
      (All-append IsFormed (diff_middle p a_mid b_mid).lines (same_lines tail i j)
        (IsFormed-diff_middle p a_mid b_mid) (IsFormed-same_lines tail i j))

-- Every line of a diff is numbered on exactly the sides that its type says.
pub IsFormed-diff_lines :
    (old_text new_text : Text) → All IsFormed (diff_lines old_text new_text).lines
unfolding diff_lines
IsFormed-diff_lines old_text new_text = elim (Bool-cases (text_eq old_text new_text)) [
  | inl e ↦ rw e (IsFormed-same_lines (lines_of old_text) 1 1)
  | inr e ↦ rw e (IsFormed-diff_documents (lines_of old_text) (lines_of new_text))
]
