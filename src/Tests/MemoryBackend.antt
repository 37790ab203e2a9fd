-- ===== src/Tests/MemoryBackend.antt =====
-- A backend that keeps the files' bytes under their paths.
use tactile.Base.{
  ℕ, Bool, true, false, Option, some, none, List, [], Text, Result, ok, err, storage, not_found,
  lookup, assign, erase, length,
}
use tactile.Storage.Backend.{Backend}

abbrev pub Files : Type 0
Files = List (Text × List ℕ)

abbrev found : Option (List ℕ) → Result (List ℕ)
found (some c) = ok c
found none = err (storage not_found)

abbrev is_found : Option (List ℕ) → Bool
is_found (some c) = true
is_found none = false

abbrev size_of : Option (List ℕ) → ℕ
size_of (some c) = length c
size_of none = 0

abbrev pub memory : Backend
memory = record {
  World = Files;
  read_dir = λ _ w. (ok [], w);
  read_text_file = λ path w. (found (lookup path w), w);
  read_file = λ path w. (found (lookup path w), w);
  write_text_file = λ path c _ w. (ok tt, assign path c w);
  write_file = λ path c _ w. (ok tt, assign path c w);
  mkdir = λ _ _ w. (ok tt, w);
  rename = λ _ _ _ w. (ok tt, w);
  remove = λ path _ w. (ok tt, erase path w);
  stat =
      λ path w. (ok (record { size = size_of (lookup path w); mtime = none; birthtime = none }), w);
  exists = λ path w. (ok (is_found (lookup path w)), w);
}
