-- ===== src/Tests/ZipTests.antt =====
-- The theorems on packages/core/src/utils/zip.ts.
use tactile.Base.{none, List, [], ◌∷◌, codes, All, AllDistinct, split}
use tactile.Paths.{slash}
use tactile.Zip.{ZipEntry, Prepared, assign_names}
use tactile.Zip.Names.{AllDistinct-assign_names}
use tactile.Zip.Inside.{IsInner, assign_names-IsInner}

abbrev twice : List ZipEntry
twice =
    record { name = codes "a.md"; contents = 1 ∷ []; modified = none }
    ∷ record { name = codes "../a.md"; contents = 2 ∷ []; modified = none }
    ∷ []

abbrev prepared : List Prepared
prepared =
    record { name_bytes = 97 ∷ []; contents = 1 ∷ 2 ∷ []; crc = 7; time = 0; date = 33 }
    ∷ record { name_bytes = 98 ∷ []; contents = []; crc = 0; time = 0; date = 33 }
    ∷ []

AllDistinct-assign_names_example : AllDistinct (assign_names [] twice)
AllDistinct-assign_names_example = AllDistinct-assign_names twice

assign_names-IsInner_example : All (λ name. All IsInner (split slash name)) (assign_names [] twice)
assign_names-IsInner_example = assign_names-IsInner [] twice
