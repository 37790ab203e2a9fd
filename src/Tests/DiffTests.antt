-- ===== src/Tests/DiffTests.antt =====
-- The theorems on packages/core/src/diff.ts at small texts.
use tactile.Base.{◌≡◌, ◌≤◌, [], ◌∷◌, Text, codes, length, All}
use tactile.Diff.{is_same, count_ops, diff_lines, lines_of, lcs_diff, collapse_unchanged}
use tactile.Diff.Lcs.{Sub, keep, skip, done}
use tactile.Diff.Walk.{enumerate, lcs_diff_longest}
use tactile.Diff.Sides.{old_side, new_side, sides-diff_lines}
use tactile.Diff.Formed.{IsFormed, IsFormed-diff_lines}
use tactile.Diff.Collapse.{weight, changed_rows, changes, collapse_unchanged_lem}

abbrev a : Text
a = codes "a"

abbrev b : Text
b = codes "b"

abbrev c : Text
c = codes "c"

abbrev before : Text
before = codes "a\nb\nc"

abbrev after : Text
after = codes "a\nc\nd"

ab_in_abc : Sub (a ∷ c ∷ []) (a ∷ b ∷ c ∷ [])
ab_in_abc = keep (skip (keep done))

lcs_diff_longest_example :
    length (a ∷ c ∷ []) ≤ count_ops is_same (lcs_diff (a ∷ b ∷ c ∷ []) (a ∷ c ∷ b ∷ []))
lcs_diff_longest_example =
    lcs_diff_longest (a ∷ b ∷ c ∷ []) (a ∷ c ∷ b ∷ []) (a ∷ c ∷ []) ab_in_abc
      (keep (keep (skip done)))

sides-diff_lines_example :
    (old_side (diff_lines before after).lines ≡ enumerate 1 (lines_of before))
    × (new_side (diff_lines before after).lines ≡ enumerate 1 (lines_of after))
sides-diff_lines_example = sides-diff_lines before after

IsFormed-diff_lines_example : All IsFormed (diff_lines before after).lines
IsFormed-diff_lines_example = IsFormed-diff_lines before after

collapse_unchanged_lem_example :
    (weight (collapse_unchanged (diff_lines before after).lines 3)
      ≡ length (diff_lines before after).lines)
    × (changed_rows (collapse_unchanged (diff_lines before after).lines 3)
        ≡ changes (diff_lines before after).lines)
collapse_unchanged_lem_example = collapse_unchanged_lem (diff_lines before after).lines 3
