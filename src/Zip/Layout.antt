-- ===== src/Zip/Layout.antt =====
-- Where the parts of an archive stand.
use tactile.Base.{ℕ, ◌+◌, ◌≡◌, List, [], ◌∷◌, length, drop, take, get_or, ◌*◌, ◌<◌, ◌^◌}
use tactile.Zip.{Prepared, local_entry}

-- At each offset stands the entry of the same place.
abbrev pub Located : List ℕ → List Prepared → List ℕ → Type 0
Located out [] offsets = offsets ≡ []
Located out (e ∷ es) [] = ⊥
Located out (e ∷ es) (o ∷ offsets) =
    (take (length (local_entry e)) (drop o out) ≡ local_entry e) × Located out es offsets

-- The numbers that stand at a position, in 16 and in 32 bits.
abbrev pub read16 : ℕ → List ℕ → ℕ
read16 i out = get_or out i 0 + 256 * get_or out (i + 1) 0

abbrev pub read32 : ℕ → List ℕ → ℕ
read32 i out = read16 i out + 65536 * read16 (i + 2) out

-- From a position on, the directory's records are those of the entries, up to the end record: the
-- length of a name stands 28 bytes, the offset 42 and the name 46 bytes after a record's start.
abbrev pub Directory : List ℕ → ℕ → List Prepared → Type 0
Directory out pos [] = pos + 22 ≡ length out
Directory out pos (e ∷ es) =
    (take (length (local_entry e)) (drop (read32 (pos + 42) out) out) ≡ local_entry e)
    × (take (read16 (pos + 28) out) (drop (pos + 46) out) ≡ e.name_bytes)
    × Directory out (pos + 46 + read16 (pos + 28) out) es

abbrev pub HasShortName : Prepared → Type 0
HasShortName e = length e.name_bytes < 2 ^ 16
