-- ===== src/Tests/FormatTests.antt =====
-- The theorem on packages/storage/src/format.ts, with a store that a newer version wrote.
use tactile.Base.{false, Option, some, [], ◌∷◌, Text, codes, Ensures}
use tactile.Tests.MemoryBackend.{Files, memory}
use tactile.Format.{fraction, FormatMeta, ensure_format_version, format_meta_path}
use tactile.Format.Guard.{IsKnown, IsKnown-ensure_format_version}

abbrev newer : FormatMeta
newer = record {
  version = fraction false 3 1;
  backend = codes "idb";
  created_at = codes "2025-01-02T03:04:05.000Z";
}

abbrev parse : Text → Option FormatMeta
parse _ = some newer

abbrev print : FormatMeta → Text
print _ = codes "{}"

abbrev stored : Files
stored = (format_meta_path, codes "{}") ∷ []

IsKnown-ensure_format_version_example :
    Ensures
      (IsKnown memory (codes "idb") parse print)
      (ensure_format_version memory
        (codes "idb")
        parse
        print
        (codes "2025-01-02T03:04:05.000Z")
        stored).0
IsKnown-ensure_format_version_example =
    IsKnown-ensure_format_version memory (codes "idb") parse print
      (codes "2025-01-02T03:04:05.000Z") stored
