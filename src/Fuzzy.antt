-- ===== src/Fuzzy.antt =====
-- packages/core/src/utils/fuzzy.ts: matching a pattern against a text, and highlighting.
-- `to_lower` stands for the runtime's `toLowerCase`. The proofs are in the modules below this one.
pub mod Occurs
pub mod InOrder
pub mod Words
pub mod Ranges
pub mod Sorting
pub mod Escape
pub mod Marks
use tactile.Base.{
  ℕ, zero, suc, ◌+◌, ◌-◌, ◌*◌, Bool, true, false, not, ◌&&◌, ◌||◌, Option, none, some, List, [],
  ◌∷◌, ◌++◌, Text, codes, text_eq, starts_with, length, take, drop, get_elem?, leb, ltb, ◌==◌,
  is_high, is_low, if◌then◌else◌, ℤ, pos, ◌+ℤ◌, ◌-ℤ◌,
}

pub record FuzzyMatch : Type 0 where
  pub score : ℤ
  pub indices : List ℕ

abbrev score_match : ℕ
score_match = 10

abbrev bonus_boundary : ℕ
bonus_boundary = 8

abbrev bonus_camel : ℕ
bonus_camel = 6

abbrev bonus_consecutive : ℕ
bonus_consecutive = 8

abbrev penalty_gap : ℕ
penalty_gap = 1

abbrev pub is_lower : ℕ → Bool
is_lower c = leb b'a' c && leb c b'z'

abbrev pub is_word_char : ℕ → Bool
is_word_char c = is_lower c || (leb b'A' c && leb c b'Z') || (leb b'0' c && leb c b'9')

-- `isLower(text[i])`: comparing a missing character gives false.
abbrev is_lower_at : Option ℕ → Bool
is_lower_at (some c) = is_lower c
is_lower_at none = false

abbrev bonus_after : Option ℕ → Option ℕ → ℕ
bonus_after (some prev) here =
    if not (is_word_char prev)
    then bonus_boundary
    else if is_lower prev && not (is_lower_at here)
    then bonus_camel
    else 0
bonus_after none here = bonus_boundary

unfoldable pub boundary_bonus : Text → ℕ → ℕ
boundary_bonus text zero = bonus_boundary
boundary_bonus text (suc i) = bonus_after (get_elem? text i) (get_elem? text (suc i))

-- `indexOf` from the position `pos`, where `hay` is what is left of the text there. The search
-- string is not empty wherever the position may lie past the end.
unfoldable pub find_at : Text → Text → ℕ → Option ℕ
find_at needle [] at = if text_eq needle [] then some at else none
find_at needle (x ∷ xs) at =
    let later = find_at needle xs (suc at) in if starts_with (x ∷ xs) needle then some at else later

unfoldable pub index_of : Text → Text → ℕ → Option ℕ
unfolding find_at
index_of hay needle from = find_at needle (drop from hay) from

-- `for (const char of needle)` goes by code points: a surrogate pair is one string of two units.
unfoldable pub characters : Text → List Text
characters [] = []
characters (u ∷ []) = (u ∷ []) ∷ []
characters (u ∷ v ∷ rest) =
    let pair = (u ∷ v ∷ []) ∷ characters rest in
    let single = (u ∷ []) ∷ characters (v ∷ rest) in if is_high u && is_low v then pair else single

-- What a match at `found` adds to the score, given the previous index.
abbrev step_score : Text → ℕ → Option ℕ → ℤ → ℤ
step_score text found none score = score +ℤ pos (score_match + boundary_bonus text found)
step_score text found (some previous) score =
    let matched = score +ℤ pos (score_match + boundary_bonus text found) in
    if found == previous + 1
    then matched +ℤ pos bonus_consecutive
    else (matched -ℤ pos ((found - previous - 1) * penalty_gap))

-- The loop of `fuzzyMatch`.
unfoldable pub fuzzy_loop : Text → Text → List Text → ℕ → Option ℕ → ℤ → List ℕ → Option FuzzyMatch
fuzzy_loop text hay [] cursor previous score indices =
    some (record { score = score; indices = indices })
fuzzy_loop text hay (c ∷ chars) cursor previous score indices = elim (index_of hay c cursor) [
  | none ↦ none
  | some found ↦
      fuzzy_loop text hay chars (found + 1) (some found) (step_score text found previous score)
        (indices ++ found ∷ [])
]

abbrev pub empty_match : FuzzyMatch
empty_match = record { score = pos 0; indices = [] }

-- `for (let i = 0; i < needle.length; i++) indices.push(found + i)`
unfoldable pub run_from : ℕ → ℕ → List ℕ
run_from found zero = []
run_from found (suc n) = found ∷ run_from (found + 1) n

-- The character before or after an occurrence is no word character, or there is none.
abbrev pub is_break : Option ℕ → Bool
is_break (some c) = not (is_word_char c)
is_break none = true

abbrev pub before : Text → ℕ → Option ℕ
before hay zero = none
before hay (suc i) = get_elem? hay i

abbrev pub is_whole_word : Text → ℕ → ℕ → Bool
is_whole_word hay found n = is_break (before hay found) && is_break (get_elem? hay (found + n))

-- The loop of `wordMatch`; more fuel than `hay` has characters is enough.
unfoldable pub word_loop : ℕ → Text → Text → ℕ → Option FuzzyMatch
unfolding run_from
word_loop zero hay needle cursor = none
word_loop (suc fuel) hay needle cursor =
    let n = length needle in
    if leb (cursor + n) (length hay)
    then elim (index_of hay needle cursor) [
      | none ↦ none
      | some found ↦
          let next = word_loop fuel hay needle (found + 1) in
          if is_whole_word hay found n
          then some (record {
            score = pos ((score_match + bonus_consecutive) * n + bonus_boundary);
            indices = run_from found n;
          })
          else next
    ]
    else none

pub data MatchMode : Type 0 where
  fuzzy word exact : MatchMode

module _ (to_lower : Text → Text) where
  abbrev pub fold_case : Bool → Text → Text
  fold_case case_sensitive s = if case_sensitive then s else to_lower s

  unfoldable pub fuzzy_match : Text → Text → Bool → Option FuzzyMatch
  unfolding fuzzy_loop
  fuzzy_match pattern text case_sensitive =
      if length pattern == 0
      then some empty_match
      else if ltb (length text) (length pattern)
      then none
      else fuzzy_loop text (fold_case case_sensitive text)
          (characters (fold_case case_sensitive pattern)) 0 none (pos 0) []

  unfoldable pub word_match : Text → Text → Bool → Option FuzzyMatch
  unfolding word_loop
  word_match pattern text case_sensitive =
      let hay = fold_case case_sensitive text in
      if length pattern == 0
      then some empty_match
      else word_loop (suc (length hay)) hay (fold_case case_sensitive pattern) 0

  unfoldable pub exact_match : Text → Text → Bool → Option FuzzyMatch
  unfolding run_from
  exact_match pattern text case_sensitive =
      let needle = fold_case case_sensitive pattern in
      if length pattern == 0
      then some empty_match
      else elim (index_of (fold_case case_sensitive text) needle 0) [
        | none ↦ none
        | some found ↦ some (record {
          score = pos (
              (score_match + bonus_consecutive) * length needle
              + boundary_bonus text found
              + bonus_boundary);
          indices = run_from found (length needle);
        })
      ]

  -- `exact || mode === 'exact' ? exact : fuzzy`
  unfoldable pub fall_back : Option FuzzyMatch → MatchMode → Text → Text → Bool → Option FuzzyMatch
  fall_back (some m) mode term text case_sensitive = some m
  fall_back none fuzzy term text case_sensitive = fuzzy_match term text case_sensitive
  fall_back none word term text case_sensitive = fuzzy_match term text case_sensitive
  fall_back none exact term text case_sensitive = none

  unfoldable pub match_term : Text → Text → MatchMode → Bool → Option FuzzyMatch
  unfolding fall_back
  match_term term text word case_sensitive = word_match term text case_sensitive
  match_term term text fuzzy case_sensitive =
      fall_back (exact_match term text case_sensitive) fuzzy term text case_sensitive
  match_term term text exact case_sensitive =
      fall_back (exact_match term text case_sensitive) exact term text case_sensitive

-- `[...indices].sort((a, b) => a - b)`
unfoldable pub insert_sorted : ℕ → List ℕ → List ℕ
insert_sorted x [] = x ∷ []
insert_sorted x (y ∷ ys) = if leb x y then x ∷ y ∷ ys else y ∷ insert_sorted x ys

unfoldable pub sort_indices : List ℕ → List ℕ
unfolding insert_sorted
sort_indices [] = []
sort_indices (x ∷ xs) = insert_sorted x (sort_indices xs)

-- The loop of `toHighlightRanges` over the sorted indices behind the first.
unfoldable pub range_loop : ℕ → ℕ → List ℕ → List (ℕ × ℕ)
range_loop start end [] = (start, end) ∷ []
range_loop start end (x ∷ xs) =
    let grown = range_loop start (x + 1) xs in
    let closed = (start, end) ∷ range_loop x (x + 1) xs in if x == end then grown else closed

unfoldable pub ranges_of : List ℕ → List (ℕ × ℕ)
unfolding range_loop
ranges_of [] = []
ranges_of (x ∷ xs) = range_loop x (x + 1) xs

unfoldable pub to_highlight_ranges : List ℕ → List (ℕ × ℕ)
unfolding ranges_of sort_indices
to_highlight_ranges indices = ranges_of (sort_indices indices)

-- `s.replace(/c/g, by)` for one character.
unfoldable pub replace_char : ℕ → Text → Text → Text
replace_char c by [] = []
replace_char c by (x ∷ xs) = (if x == c then by else x ∷ []) ++ replace_char c by xs

unfoldable pub escape_html : Text → Text
unfolding replace_char
escape_html text = replace_char b'"' (codes "&quot;") (
    replace_char b'>' (codes "&gt;")
      (replace_char b'<' (codes "&lt;") (replace_char b'&' (codes "&amp;") text)))

-- `<mark class="${markClass}">${inner}</mark>`
abbrev pub mark : Text → Text → Text
mark mark_class inner =
    codes "<mark class=\"" ++ (mark_class ++ (codes "\">" ++ (inner ++ codes "</mark>")))

-- `text.slice(from, to)`: empty if `to` does not lie behind `from`.
abbrev pub slice : Text → ℕ → ℕ → Text
slice text from to = take (to - from) (drop from text)

-- The loop of `applyHighlights`.
unfoldable pub highlight_loop : Text → Text → List (ℕ × ℕ) → ℕ → Text → Text
highlight_loop text mark_class [] cursor out = out ++ escape_html (drop cursor text)
highlight_loop text mark_class ((start, end) ∷ ranges) cursor out =
    highlight_loop text mark_class ranges end (
      out
      ++ (escape_html (slice text cursor start)
          ++ mark mark_class (escape_html (slice text start end))))

unfoldable pub apply_highlights : Text → List (ℕ × ℕ) → Text → Text
unfolding highlight_loop escape_html
apply_highlights text [] mark_class = escape_html text
apply_highlights text (r ∷ ranges) mark_class = highlight_loop text mark_class (r ∷ ranges) 0 []
