-- ===== src/Fuzzy/InOrder.antt =====
-- `fuzzyMatch` finds a pattern exactly when its characters occur in the text in order.
use tactile.Base.{
  ℕ, ◌+◌, ◌≤◌, Bool, ◌≡◌, ◌≢◌, refl, ◌∙◌, false, Option, some, none, List, [], ◌∷◌, ◌++◌,
  append_assoc, append-nil, arith, Text, length, ltb, ◌==◌, ℤ, pos, Option-cases, inl, inr,
}
use tactile.Fuzzy.{FuzzyMatch, index_of, characters, step_score, fuzzy_loop, fold_case, fuzzy_match}
use tactile.Fuzzy.Occurs.{OccursAt, index_of_sound, index_of_first}

-- The characters stand in the text at the given positions, in ascending order from `cursor` on.
abbrev pub InOrder : Text → List Text → ℕ → List ℕ → Type 0
InOrder hay [] cursor [] = Unit
InOrder hay [] cursor (i ∷ is) = ⊥
InOrder hay (c ∷ chars) cursor [] = ⊥
InOrder hay (c ∷ chars) cursor (i ∷ is) =
    (cursor ≤ i) × OccursAt hay c i × InOrder hay chars (i + 1) is

-- Positions that serve from one cursor serve from an earlier one.
InOrder-down :
    (hay : Text) (chars : List Text) (c d : ℕ) (is : List ℕ)
    → d ≤ c
    → InOrder hay chars c is
    → InOrder hay chars d is
InOrder-down hay [] c d [] le h = tt
InOrder-down hay [] c d (i ∷ is) le h = h
InOrder-down hay (x ∷ chars) c d [] le h = h
InOrder-down hay (x ∷ chars) c d (i ∷ is) le h = (omega (arith, h.0), h.1, h.2)

-- The indices of a match are those already there, and positions in order.
fuzzy_loop_sound :
    (text hay : Text) (chars : List Text) (cursor : ℕ) (previous : Option ℕ) (score : ℤ)
    (indices : List ℕ) {m : FuzzyMatch}
    → fuzzy_loop text hay chars cursor previous score indices ≡ some m
    → (is : List ℕ) × (m.indices ≡ indices ++ is) × InOrder hay chars cursor is
unfolding fuzzy_loop
fuzzy_loop_sound text hay [] cursor previous score indices {m} h =
    ([], ground (arith, append-nil indices), tt)
fuzzy_loop_sound text hay (c ∷ chars) cursor previous score indices {m} h =
    elim (Option-cases (index_of hay c cursor)) [
      | inl e ↦ absurd (cc (rw (e, fuzzy_loop) at h))
      | inr (f, e) ↦
          let (le, occurs) = index_of_sound hay c cursor {f = f} e in
          let (is, spelled, order) =
            fuzzy_loop_sound text hay chars (f + 1) (some f) (step_score text f previous score)
              (indices ++ f ∷ []) {m = m} (rw (e, fuzzy_loop) at h) in
          (f ∷ is, spelled ∙ append_assoc indices (f ∷ []) is, (le, occurs, order))
    ]

-- If the characters occur in order, the loop finds them.
fuzzy_loop_complete :
    (text hay : Text) (chars : List Text) (cursor : ℕ) (previous : Option ℕ) (score : ℤ)
    (indices is : List ℕ)
    → InOrder hay chars cursor is
    → fuzzy_loop text hay chars cursor previous score indices ≢ none
unfolding fuzzy_loop
fuzzy_loop_complete text hay [] cursor previous score indices is h = cc
fuzzy_loop_complete text hay (c ∷ chars) cursor previous score indices [] h = absurd h
fuzzy_loop_complete text hay (c ∷ chars) cursor previous score indices (i ∷ is) h =
    let (f, found, le) = index_of_first hay c cursor i h.0 h.1 in
    rw (found, fuzzy_loop)
      (fuzzy_loop_complete text hay chars (f + 1) (some f) (step_score text f previous score)
        (indices ++ f ∷ []) is (InOrder-down hay chars (i + 1) (f + 1) is (omega arith) h.2))

-- The indices of a match are positions of the characters in order; without one there are none.
abbrev pub FindsInOrder : Text → List Text → Option FuzzyMatch → Type 0
FindsInOrder hay chars (some m) = InOrder hay chars 0 m.indices
FindsInOrder hay chars none = ¬ ((is : List ℕ) × InOrder hay chars 0 is)

fuzzy_loop_finds :
    (text hay : Text) (chars : List Text) (o : Option FuzzyMatch)
    → fuzzy_loop text hay chars 0 none (pos 0) [] ≡ o
    → FindsInOrder hay chars o
fuzzy_loop_finds text hay chars (some m) e =
    let (is, same, order) = fuzzy_loop_sound text hay chars 0 none (pos 0) [] {m = m} e in
    rw same order
fuzzy_loop_finds text hay chars none e =
    λ p. fuzzy_loop_complete text hay chars 0 none (pos 0) [] p.0 p.1 e

-- For a pattern that is not empty and not longer than the text, `fuzzyMatch` gives ascending
-- positions at which the characters of the folded pattern stand in the folded text, or there are
-- no such positions.
pub fuzzy_match_lem :
    (to_lower : Text → Text) (pattern text : Text) (case_sensitive : Bool)
    → length pattern ≢ 0
    → length pattern ≤ length text
    → FindsInOrder
        (fold_case to_lower case_sensitive text)
        (characters (fold_case to_lower case_sensitive pattern))
        (fuzzy_match to_lower pattern text case_sensitive)
unfolding fuzzy_match
fuzzy_match_lem to_lower pattern text case_sensitive some_pattern fits =
    let hay = fold_case to_lower case_sensitive text in
    let chars = characters (fold_case to_lower case_sensitive pattern) in
    rw (nonzero (length pattern) some_pattern, not_longer (length text) (length pattern) fits)
      (fuzzy_loop_finds text hay chars (fuzzy_loop text hay chars 0 none (pos 0) []) refl)
  where
    nonzero : (n : ℕ) → n ≢ 0 → (n == 0) ≡ false
    nonzero n h = ground arith

    not_longer : (t p : ℕ) → p ≤ t → ltb t p ≡ false
    not_longer t p h = ground arith
