-- ===== src/Search/Bounds.antt =====
-- How many results a file has, and of which kind.
use tactile.Base.{
  ℕ, zero, suc, ◌+◌, ◌≤◌, ◌≡◌, refl, Bool, true, false, Option, some, none, List, [], ◌∷◌, Text,
  length, arith, if◌then◌else◌, Bool-cases, Option-cases, inl, inr, split, not, ◌||◌, ◌==◌, ℤ, pos,
  ◌+ℤ◌, ◌*◌,
}
use tactile.Fuzzy.{MatchMode, to_highlight_ranges}
use tactile.Search.{
  SearchResult, name, content, FileSearchResult, insert_result, sort_results, search_lines,
  search_file, line_result, match_terms, is_blank, score_lt, last_part, all_match, best_score,
}

abbrev pub is_content : SearchResult → Bool
is_content r = elim (r.kind) [ content ↦ true | name ↦ false ]

abbrev pub count_content : List SearchResult → ℕ
count_content [] = 0
count_content (r ∷ rs) = (if is_content r then 1 else 0) + count_content rs

count_content-insert_result :
    (r : SearchResult) (rs : List SearchResult)
    → count_content (insert_result r rs) ≡ (if is_content r then 1 else 0) + count_content rs
unfolding insert_result
count_content-insert_result r [] = refl
count_content-insert_result r (x ∷ xs) = elim (Bool-cases (score_lt r.score x.score)) [
  | inl e ↦ rw e (omega (arith, count_content-insert_result r xs))
  | inr e ↦ rw e refl
]

count_content-sort_results :
    (rs : List SearchResult) → count_content (sort_results rs) ≡ count_content rs
unfolding sort_results
count_content-sort_results [] = refl
count_content-sort_results (r ∷ rs) =
    omega (arith, count_content-insert_result r (sort_results rs), count_content-sort_results rs)

module _ (to_lower : Text → Text) where
  count_content-search_lines :
      (path : Text) (lines terms : List Text) (mode : MatchMode) (case_sensitive : Bool) (i : ℕ)
      (rest : List Text) (room : ℕ)
      → count_content (search_lines to_lower path lines terms mode case_sensitive i rest room)
        ≤ room
  unfolding search_lines
  count_content-search_lines path lines terms mode cs i [] room = omega arith
  count_content-search_lines path lines terms mode cs i (l ∷ rest) zero = omega arith
  count_content-search_lines path lines terms mode cs i (l ∷ rest) (suc room) =
      elim (Bool-cases (is_blank l)) [
        | inl e ↦ rw e (count_content-search_lines path lines terms mode cs (suc i) rest (suc room))
        | inr e ↦ elim (Option-cases (match_terms to_lower terms l mode cs)) [
          | inl n ↦
              rw (e, n)
                (count_content-search_lines path lines terms mode cs (suc i) rest (suc room))
          | inr (found, n) ↦
              rw (e, n)
                (unfold line_result in
                  omega
                    (arith, count_content-search_lines path lines terms mode cs (suc i) rest room))
        ]
      ]

  -- No more than twelve content results.
  abbrev pub Bounded : Option FileSearchResult → Type 0
  Bounded none = Unit
  Bounded (some r) = count_content r.results ≤ 12

  -- A file gives twelve content results at most.
  pub Bounded-search_file :
      (path text : Text) (terms : List Text) (mode : MatchMode) (case_sensitive : Bool)
      → Bounded (search_file to_lower path text terms mode case_sensitive)
  unfolding search_file
  Bounded-search_file path text terms mode cs =
      named (match_terms to_lower terms (last_part path (split b'/' path)) mode cs)
        (not (all_match to_lower terms text mode cs) || length found == 0)
    where
      found : List SearchResult
      found = search_lines to_lower path (split b'\n' text) terms mode cs 0 (split b'\n' text) 12

      few : count_content (sort_results found) ≤ 12
      few = omega (
        arith,
        count_content-sort_results found,
        count_content-search_lines path (split b'\n' text) terms mode cs 0 (split b'\n' text) 12,
      )

      sum : ℤ
      sum = best_score to_lower found +ℤ pos (length found * 3)

      named :
          (m : Option (ℤ × List ℕ)) (missing : Bool)
          → Bounded (elim m [
            | none ↦
                if missing
                then none
                else some (record { results = sort_results found; score = sum })
            | some m ↦ some (record {
              results =
                  record {
                    path = path;
                    context_preview = last_part path (split b'/' path);
                    kind = name;
                    line = none;
                    score = m.0;
                    highlights = to_highlight_ranges m.1;
                  }
                  ∷ sort_results found;
              score = m.0 +ℤ pos 100 +ℤ sum;
            })
          ])
      named none true = tt
      named none false = few
      named (some m) missing = omega (arith, few)
