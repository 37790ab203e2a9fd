-- ===== src/Tests/FuzzyTests.antt =====
-- The theorems on packages/core/src/utils/fuzzy.ts at small texts.
use tactile.Base.{
  ℕ, ◌+◌, ◌&&◌, ◌≡◌, ◌↔◌, false, List, [], ◌∷◌, map, arith, Text, codes, leb, if◌then◌else◌, All,
}
use tactile.Fuzzy.{
  fold_case, fuzzy_match, characters, word_match, to_highlight_ranges, apply_highlights,
  escape_html, slice,
}
use tactile.Fuzzy.InOrder.{FindsInOrder, fuzzy_match_lem}
use tactile.Fuzzy.Words.{FindsWord, word_match_lem}
use tactile.Fuzzy.Ranges.{
  covered, Separated, covered-to_highlight_ranges, Separated-to_highlight_ranges,
}
use tactile.Fuzzy.Sorting.{Distinct, member}
use tactile.Fuzzy.Escape.{IsSafe, IsSafe-escape_html}
use tactile.Fuzzy.Marks.{render, contents, marked_texts, Piece, apply_highlights_lem}

-- `toLowerCase` on ASCII.
abbrev lower_ascii : Text → Text
lower_ascii = map (λ c. if leb b'A' c && leb c b'Z' then c + 32 else c)

abbrev title : Text
title = codes "Daily Note"

abbrev note : Text
note = codes "NOTE"

abbrev dn : Text
dn = codes "dn"

fuzzy_match_lem_example :
    FindsInOrder
      (fold_case lower_ascii false title)
      (characters (fold_case lower_ascii false dn))
      (fuzzy_match lower_ascii dn title false)
fuzzy_match_lem_example = fuzzy_match_lem lower_ascii dn title false (omega arith) (omega arith)

word_match_lem_example :
    FindsWord
      (fold_case lower_ascii false title)
      (fold_case lower_ascii false note)
      (word_match lower_ascii note title false)
word_match_lem_example = word_match_lem lower_ascii note title false (omega arith) (omega arith)

covered-to_highlight_ranges_example :
    covered 4 (to_highlight_ranges (6 ∷ 3 ∷ 4 ∷ [])) ≡ member 4 (6 ∷ 3 ∷ 4 ∷ [])
covered-to_highlight_ranges_example = covered-to_highlight_ranges 4 (6 ∷ 3 ∷ 4 ∷ [])

Separated-to_highlight_ranges_example :
    Separated 0 (to_highlight_ranges (6 ∷ 3 ∷ 3 ∷ [])) ↔ Distinct (6 ∷ 3 ∷ 3 ∷ [])
Separated-to_highlight_ranges_example = Separated-to_highlight_ranges (6 ∷ 3 ∷ 3 ∷ [])

IsSafe-escape_html_example : All IsSafe (escape_html (codes "<b>\"&\"</b>"))
IsSafe-escape_html_example = IsSafe-escape_html (codes "<b>\"&\"</b>")

abbrev two : List (ℕ × ℕ)
two = (0, 1) ∷ (6, 8) ∷ []

two-Separated : Separated 0 two
two-Separated = (omega arith, omega arith, (omega arith, omega arith, tt))

apply_highlights_lem_example :
    (ps : List Piece) × (apply_highlights title two (codes "hit") ≡ render (codes "hit") ps)
    × (contents ps ≡ title)
    × (marked_texts ps ≡ map (λ r. slice title r.0 r.1) two)
apply_highlights_lem_example = apply_highlights_lem title (codes "hit") two two-Separated
