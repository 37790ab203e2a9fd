-- ===== src/Search.antt =====
-- packages/core/src/utils/search.ts: searching one file by name and by line.
pub mod Bounds
use tactile.Base.{
  ℕ, zero, suc, ◌+◌, ◌-◌, ◌*◌, min, Bool, true, false, not, ◌&&◌, ◌||◌, Option, none, some, List,
  [], ◌∷◌, ◌++◌, Text, split, join, length, take, drop, any, leb, ltb, ◌==◌, map, if◌then◌else◌, ℤ,
  pos, negsuc, ◌+ℤ◌,
}
use tactile.Fuzzy.{FuzzyMatch, MatchMode, match_term, to_highlight_ranges}

abbrev pub max_matches_per_file : ℕ
max_matches_per_file = 12

pub data ResultKind : Type 0 where
  name content : ResultKind

pub record SearchResult : Type 0 where
  pub path : Text
  pub context_preview : Text
  pub kind : ResultKind
  pub line : Option ℕ
  pub score : ℤ
  pub highlights : List (ℕ × ℕ)

pub record FileSearchResult : Type 0 where
  pub results : List SearchResult
  pub score : ℤ

-- The white space of `trim`.
abbrev pub is_space : ℕ → Bool
is_space c =
    (leb 9 c && leb c 13)
    || (leb 0x2000 c && leb c 0x200a)
    || any (λ d. d == c)
        (32 ∷ 0xa0 ∷ 0x1680 ∷ 0x2028 ∷ 0x2029 ∷ 0x202f ∷ 0x205f ∷ 0x3000 ∷ 0xfeff ∷ [])

unfoldable pub is_blank : Text → Bool
is_blank line = not (any (λ c. not (is_space c)) line)

-- `a < b` on scores.
unfoldable pub score_lt : ℤ → ℤ → Bool
score_lt (pos a) (pos b) = ltb a b
score_lt (pos a) (negsuc b) = false
score_lt (negsuc a) (pos b) = true
score_lt (negsuc a) (negsuc b) = ltb b a

unfoldable pub max_score : ℤ → ℤ → ℤ
unfolding score_lt
max_score a b = if score_lt a b then b else a

-- `sort((a, b) => b.score - a.score)`, which is stable.
unfoldable pub insert_result : SearchResult → List SearchResult → List SearchResult
unfolding score_lt
insert_result r [] = r ∷ []
insert_result r (x ∷ xs) =
    let later = insert_result r xs in if score_lt r.score x.score then x ∷ later else r ∷ x ∷ xs

unfoldable pub sort_results : List SearchResult → List SearchResult
unfolding insert_result
sort_results [] = []
sort_results (r ∷ rs) = insert_result r (sort_results rs)

-- `path.split('/').pop()`
unfoldable pub last_part : Text → List Text → Text
last_part path [] = path
last_part path (x ∷ xs) = last_part x xs

-- `lines.slice(startLine, i).reduce((sum, l) => sum + l.length + 1, 0)`
unfoldable pub line_offset : List Text → ℕ
line_offset [] = 0
line_offset (l ∷ ls) = length l + 1 + line_offset ls

module _ (to_lower : Text → Text) where
  -- The score and the indices of all terms, unless one does not match.
  unfoldable pub match_terms : List Text → Text → MatchMode → Bool → Option (ℤ × List ℕ)
  unfolding match_term
  match_terms [] text mode case_sensitive = some (pos 0, [])
  match_terms (term ∷ terms) text mode case_sensitive =
      elim (match_term to_lower term text mode case_sensitive) [
        | none ↦ none
        | some m ↦ elim (match_terms terms text mode case_sensitive) [
          | none ↦ none
          | some rest ↦ some (m.score +ℤ rest.0, m.indices ++ rest.1)
        ]
      ]

  unfoldable pub line_result : Text → List Text → ℕ → ℤ × List ℕ → SearchResult
  unfolding line_offset to_highlight_ranges
  line_result path lines i found =
      let start = i - 1 in
      let end = min (length lines - 1) (i + 1) in
      record {
        path = path;
        context_preview = join b'\n' (take (end + 1 - start) (drop start lines));
        kind = content;
        line = some (i + 1);
        score = found.0;
        highlights =
            to_highlight_ranges
              (map (λ k. k + line_offset (take (i - start) (drop start lines))) found.1);
      }

  -- The loop over the lines: `rest` are the lines from `i` on, and `room` results may still be added.
  unfoldable pub search_lines :
      Text → List Text → List Text → MatchMode → Bool → ℕ → List Text → ℕ → List SearchResult
  unfolding is_blank match_terms line_result
  search_lines path lines terms mode case_sensitive i [] room = []
  search_lines path lines terms mode case_sensitive i (l ∷ rest) zero = []
  search_lines path lines terms mode case_sensitive i (l ∷ rest) (suc room) =
      let skipped = search_lines path lines terms mode case_sensitive (suc i) rest (suc room) in
      let added = search_lines path lines terms mode case_sensitive (suc i) rest room in
      if is_blank l then skipped else elim (match_terms terms l mode case_sensitive) [
        | none ↦ skipped
        | some found ↦ line_result path lines i found ∷ added
      ]

  unfoldable pub best_score : List SearchResult → ℤ
  unfolding max_score
  best_score [] = pos 0
  best_score (r ∷ rs) = max_score (best_score rs) r.score

  unfoldable pub all_match : List Text → Text → MatchMode → Bool → Bool
  unfolding match_term
  all_match [] text mode case_sensitive = true
  all_match (term ∷ terms) text mode case_sensitive =
      elim (match_term to_lower term text mode case_sensitive) [
        | none ↦ false
        | some m ↦ all_match terms text mode case_sensitive
      ]

  unfoldable pub search_file : Text → Text → List Text → MatchMode → Bool → Option FileSearchResult
  unfolding last_part match_terms search_lines best_score all_match sort_results to_highlight_ranges
  search_file path text terms mode case_sensitive =
      let file_name = last_part path (split b'/' path) in
      let lines = split b'\n' text in
      let found = search_lines path lines terms mode case_sensitive 0 lines max_matches_per_file in
      let sum = best_score found +ℤ pos (length found * 3) in
      elim (match_terms terms file_name mode case_sensitive) [
        | none ↦
            if not (all_match terms text mode case_sensitive) || length found == 0
            then none
            else some (record { results = sort_results found; score = sum })
        | some m ↦ some (record {
          results =
              record {
                path = path;
                context_preview = file_name;
                kind = name;
                line = none;
                score = m.0;
                highlights = to_highlight_ranges m.1;
              }
              ∷ sort_results found;
          score = m.0 +ℤ pos 100 +ℤ sum;
        })
      ]
