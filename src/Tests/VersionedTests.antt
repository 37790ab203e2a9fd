-- ===== src/Tests/VersionedTests.antt =====
-- The theorems on packages/storage/src/versioned.ts.
use tactile.Base.{
  ℕ, ◌≤◌, ◌<◌, true, false, ◌≡◌, refl, ◌∙◌, some, List, [], ◌∷◌, Text, codes, ok, err, storage,
  not_found, lookup, lookup-assign, lookup-erase, drop, includes, text_eq, split, join,
}
use tactile.Tests.MemoryBackend.{Files, memory}
use tactile.Paths.{encode_path_as_dir, normalize_path, path_segments}
use tactile.Storage.Backend.{Backend, Keeps}
use tactile.Versioned.{
  defaults, default_root_for, in_dir, bump, version_path, version_dir_for, snapshot_before_write,
}
use tactile.Versioned.Bump.{version_name, bump_lem}
use tactile.Versioned.Frame.{Inside, IsStable, IsApart, Keeps-snapshot_before_write}

-- One directory, `/v`, and the names in it.
abbrev one_dir : Backend
one_dir = record {
  World = List Text;
  read_dir = λ _ w. (ok [], w);
  read_text_file = λ _ w. (err (storage not_found), w);
  read_file = λ _ w. (err (storage not_found), w);
  write_text_file = λ _ _ _ w. (ok tt, w);
  write_file = λ _ _ _ w. (ok tt, w);
  mkdir = λ _ _ w. (ok tt, w);
  rename = λ _ _ _ w. (ok tt, w);
  remove = λ _ _ w. (ok tt, w);
  stat = λ _ w. (err (storage not_found), w);
  exists = λ path w. (ok (includes w (drop 3 path)), w);
}

abbrev names : List Text
names = version_name 100 ∷ version_name 101 ∷ []

exists_by_name :
    (i : ℕ)
    → one_dir.exists (version_path one_dir defaults (codes "/v") i) names
      ≡ (ok (includes names (version_name i)), names)
exists_by_name i = refl

bump_lem_example :
    (m : ℕ) × (bump one_dir defaults 3 (codes "/v") 100 names ≡ (ok m, names))
    × (includes names (version_name m) ≡ false)
    × ((j : ℕ) → 100 ≤ j → j < m → includes names (version_name j) ≡ true)
bump_lem_example = bump_lem one_dir defaults (codes "/v") 100 names names exists_by_name

abbrev note : Text
note = codes "/n/a.md"

abbrev other : Text
other = codes "/n/b.md"

-- The other note keeps its contents.
abbrev Kept : Files → Type 0
Kept w = lookup other w ≡ some (5 ∷ [])

abbrev versions : Text
versions = codes "/n/.tactile/versions/%2Fn%2Fa.md-0be63b37"

dir_found : version_dir_for memory defaults note ≡ ok (some versions)
unfolding version_dir_for default_root_for normalize_path path_segments encode_path_as_dir split
    join text_eq
dir_found = refl

Kept-IsStable : IsStable memory defaults Kept
Kept-IsStable = record {
  exists = λ _ _ k. k;
  stat = λ _ _ k. k;
  read_file = λ _ _ k. k;
  read_dir = λ _ _ k. k;
}

Kept-IsApart : IsApart memory defaults Kept versions
unfolding text_eq
Kept-IsApart = record {
  mkdir = λ _ _ k. k;
  write_file = λ name c _ w k. lookup-assign (in_dir memory defaults versions name) other c w ∙ k;
  remove = λ name _ w k. lookup-erase (in_dir memory defaults versions name) other w ∙ k;
}

Keeps-snapshot_before_write_example :
    Keeps (Inside memory defaults Kept) (snapshot_before_write memory defaults 5 100 note)
Keeps-snapshot_before_write_example =
    Keeps-snapshot_before_write memory defaults Kept 5 100 note versions dir_found Kept-IsStable
      Kept-IsApart
