-- ===== src/Diff/Counts.antt =====
-- The counters of a diff agree with its lines and with the lengths of both documents.
use tactile.Base.{ℕ, ◌+◌, Bool, ◌≡◌, List, [], ◌∷◌, if◌then◌else◌}
use tactile.Diff.{DiffLineType, is_add, is_del, is_same, DiffLine, DiffResult}

-- How many lines are of the type that `p` tests for.
abbrev pub count_lines : (DiffLineType → Bool) → List DiffLine → ℕ
count_lines p [] = 0
count_lines p (l ∷ ls) = (if p l.type then 1 else 0) + count_lines p ls

-- The three counts of a stretch of lines.
record Counts (xs : List DiffLine) (added removed unchanged : ℕ) : Type 0 where
  adds : count_lines is_add xs ≡ added
  dels : count_lines is_del xs ≡ removed
  sames : count_lines is_same xs ≡ unchanged

-- The counters of a result.
record Counted (r : DiffResult) : Type 0 where
  adds : count_lines is_add r.lines ≡ r.added
  dels : count_lines is_del r.lines ≡ r.removed
  sames : count_lines is_same r.lines ≡ r.unchanged
