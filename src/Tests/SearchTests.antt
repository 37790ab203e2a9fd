-- ===== src/Tests/SearchTests.antt =====
-- The theorems on packages/core/src/utils/search.ts at a small file.
use tactile.Base.{true, [], ◌∷◌, Text, codes}
use tactile.Fuzzy.{fuzzy}
use tactile.Search.{search_file}
use tactile.Search.Bounds.{Bounded, Bounded-search_file}

abbrev unchanged : Text → Text
unchanged s = s

Bounded-search_file_example : Bounded unchanged (
    search_file unchanged
      (codes "/notes/a.md")
      (codes "one\ntwo\none two")
      (codes "one" ∷ [])
      fuzzy
      true)
Bounded-search_file_example =
    Bounded-search_file unchanged (codes "/notes/a.md") (codes "one\ntwo\none two")
      (codes "one" ∷ []) fuzzy true
