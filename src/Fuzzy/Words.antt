-- ===== src/Fuzzy/Words.antt =====
-- `wordMatch` finds a pattern exactly when it stands in the text between word boundaries.
use tactile.Base.{
  ℕ, zero, suc, ◌+◌, ◌≤◌, ◌<◌, Bool, ◌≡◌, ◌≢◌, refl, ap, true, false, Option, some, none, [], ◌∷◌,
  arith, Text, length, leb, ◌==◌, starts_with, Bool-cases, Option-cases, inl, inr,
}
use tactile.Fuzzy.{FuzzyMatch, run_from, is_whole_word, index_of, word_loop, word_match, fold_case}
use tactile.Fuzzy.Occurs.{OccursAt, index_of_sound, index_of_first}

-- An occurrence of a text that is not empty ends within the text.
starts_with-length : (s p : Text) → starts_with s p ≡ true → length p ≤ length s
unfolding starts_with
starts_with-length s [] h = omega arith
starts_with-length [] (y ∷ ys) h = cc
starts_with-length (x ∷ xs) (y ∷ ys) h = omega (arith, starts_with-length xs ys (ground arith))

OccursAt-length :
    (hay needle : Text) (i : ℕ)
    → length needle ≢ 0
    → OccursAt hay needle i
    → i + length needle ≤ length hay
OccursAt-length hay needle zero n h = omega (arith, starts_with-length hay needle h)
OccursAt-length [] needle (suc i) n h = absurd (omega (arith, starts_with-length [] needle h))
OccursAt-length (x ∷ hay) needle (suc i) n h = omega (arith, OccursAt-length hay needle i n h)

-- An occurrence between word boundaries.
abbrev pub WordAt : Text → Text → ℕ → Type 0
WordAt hay needle i = OccursAt hay needle i × (is_whole_word hay i (length needle) ≡ true)

word_loop_sound :
    (fuel : ℕ) (hay needle : Text) (cursor : ℕ) {m : FuzzyMatch}
    → word_loop fuel hay needle cursor ≡ some m
    → (f : ℕ) × WordAt hay needle f × (m.indices ≡ run_from f (length needle))
unfolding word_loop
word_loop_sound zero hay needle cursor {m} h = (0, (cc, cc), cc)
word_loop_sound (suc fuel) hay needle cursor {m} h =
    elim (Bool-cases (leb (cursor + length needle) (length hay))) [
      | inr past ↦ absurd (ground arith)
      | inl room ↦ elim (Option-cases (index_of hay needle cursor)) [
        | inl e ↦ absurd (ground arith)
        | inr (f, e) ↦
            let (le, occurs) = index_of_sound hay needle cursor {f = f} e in
            elim (Bool-cases (is_whole_word hay f (length needle))) [
              | inl w ↦ (f, (occurs, w), ground arith)
              | inr w ↦ word_loop_sound fuel hay needle (f + 1) {m = m} (ground arith)
            ]
      ]
    ]

word_loop_complete :
    (fuel : ℕ) (hay needle : Text) (cursor i : ℕ)
    → length needle ≢ 0
    → length hay < fuel + cursor
    → cursor ≤ i
    → WordAt hay needle i
    → word_loop fuel hay needle cursor ≢ none
unfolding word_loop
word_loop_complete zero hay needle cursor i n enough le w =
    absurd (omega (arith, OccursAt-length hay needle i n w.0))
word_loop_complete (suc fuel) hay needle cursor i n enough le w =
    let ends = OccursAt-length hay needle i n w.0 in
    let room : leb (cursor + length needle) (length hay) ≡ true = ground (arith, ends) in
    let (f, found, first) = index_of_first hay needle cursor i le w.0 in
    let (after, _) = index_of_sound hay needle cursor {f = f} found in
    elim (Bool-cases (is_whole_word hay f (length needle))) [
      | inl word ↦ rw (room, found, word) (cc)
      | inr other ↦
          let apart : f ≢ i =
            λ e. cc (other, w.1, ap (λ k. is_whole_word hay k (length needle)) e) in
          rw (room, found, other)
            (word_loop_complete fuel hay needle (f + 1) i n (omega arith) (omega (arith, apart)) w)
    ]

-- A match is an occurrence between word boundaries, with the run of its characters as indices;
-- without one the text has no such occurrence.
abbrev pub FindsWord : Text → Text → Option FuzzyMatch → Type 0
FindsWord hay needle (some m) =
    (f : ℕ) × WordAt hay needle f × (m.indices ≡ run_from f (length needle))
FindsWord hay needle none = ¬ ((i : ℕ) × WordAt hay needle i)

word_loop_finds :
    (hay needle : Text) (o : Option FuzzyMatch)
    → length needle ≢ 0
    → word_loop (suc (length hay)) hay needle 0 ≡ o
    → FindsWord hay needle o
word_loop_finds hay needle (some m) n e = word_loop_sound (suc (length hay)) hay needle 0 {m = m} e
word_loop_finds hay needle none n e =
    λ w. word_loop_complete (suc (length hay)) hay needle 0 w.0 n (omega arith) (omega arith) w.1 e

-- With a pattern that is not empty before and after folding, `wordMatch` gives an occurrence
-- between word boundaries and the run of its characters, or the text has no such occurrence.
pub word_match_lem :
    (to_lower : Text → Text) (pattern text : Text) (case_sensitive : Bool)
    → length pattern ≢ 0
    → length (fold_case to_lower case_sensitive pattern) ≢ 0
    → FindsWord
        (fold_case to_lower case_sensitive text)
        (fold_case to_lower case_sensitive pattern)
        (word_match to_lower pattern text case_sensitive)
unfolding word_match
word_match_lem to_lower pattern text case_sensitive some_pattern some_needle =
    let hay = fold_case to_lower case_sensitive text in
    let needle = fold_case to_lower case_sensitive pattern in
    rw (nonzero (length pattern) some_pattern)
      (word_loop_finds hay needle (word_loop (suc (length hay)) hay needle 0) some_needle refl)
  where
    nonzero : (n : ℕ) → n ≢ 0 → (n == 0) ≡ false
    nonzero n h = ground arith
