-- ===== src/Tests/PathTests.antt =====
-- The theorems on packages/storage/src/paths.ts at small paths.
use tactile.Base.{true, ◌≡◌, refl, ◌↔◌, [], ◌∷◌, arith, Text, codes, ok, text_eq, split, join}
use tactile.Paths.{
  normalize_path, parent_path, base_name, is_under, path_segments, from_segments, collect_segments,
}
use tactile.Paths.Segments.{IsSegment}
use tactile.Paths.Normal.{path_segments-from_segments, parent_base-join}
use tactile.Paths.Under.{Extends, is_under_iff}

abbrev messy : Text
messy = codes "//notes/./a.md/"

abbrev plain : Text
plain = codes "/notes/a.md"

messy-plain : normalize_path messy ≡ ok plain
unfolding normalize_path collect_segments split join text_eq
messy-plain = refl

abbrev notes : Text
notes = codes "notes"

abbrev note : Text
note = codes "a.md"

notes-IsSegment : IsSegment notes
unfolding text_eq
notes-IsSegment = record { not_empty = refl; not_dot = refl; not_dots = refl; lacks = ground arith }

note-IsSegment : IsSegment note
unfolding text_eq
note-IsSegment = record { not_empty = refl; not_dot = refl; not_dots = refl; lacks = ground arith }

path_segments-from_segments_example :
    path_segments (from_segments (notes ∷ note ∷ [])) ≡ ok (notes ∷ note ∷ [])
path_segments-from_segments_example =
    path_segments-from_segments (notes ∷ note ∷ []) (notes-IsSegment, (note-IsSegment, tt))

parent_base-join_example :
    (parent_path (from_segments (notes ∷ note ∷ [])) ≡ ok (from_segments (notes ∷ [])))
    × (base_name (from_segments (notes ∷ note ∷ [])) ≡ ok note)
parent_base-join_example = parent_base-join (notes ∷ []) note (notes-IsSegment, tt) note-IsSegment

is_under_iff_example :
    (is_under (from_segments (notes ∷ note ∷ [])) (from_segments (notes ∷ [])) ≡ ok true)
    ↔ Extends (notes ∷ note ∷ []) (notes ∷ [])
is_under_iff_example =
    is_under_iff (notes ∷ note ∷ []) (notes ∷ []) (notes-IsSegment, (note-IsSegment, tt))
      (notes-IsSegment, tt)
