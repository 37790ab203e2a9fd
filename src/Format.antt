-- ===== src/Format.antt =====
-- packages/storage/src/format.ts: the version of the layout of a store.
--
-- `parse` stands for `JSON.parse`, with `none` where it throws or the version is no number; `print`
-- for `JSON.stringify`. `iso` is the time of the call.
pub mod Guard
use tactile.Base.{
  suc, ◌*◌, Bool, true, false, not, ℕ, Option, some, none, Text, codes, Failure, plain, ltb,
  if◌then◌else◌,
}
use tactile.Storage.{Action, ◌>>=◌, ◌>>◌, pure, throw}
use tactile.Storage.Backend.{Backend, catch, recursively, no_version}

abbrev pub storage_format_version : ℕ
storage_format_version = 1

abbrev pub format_meta_path : Text
format_meta_path = codes "/.tactile/format.json"

-- A number of a JSON text: a sign and a fraction over `suc d`, or too large for a double.
pub data Number : Type 0 where
  fraction : (negative : Bool) (n d : ℕ) → Number
  infinite : (negative : Bool) → Number

-- `x > limit`
unfoldable pub exceeds : ℕ → Number → Bool
exceeds limit (fraction true n d) = false
exceeds limit (fraction false n d) = ltb (limit * suc d) n
exceeds limit (infinite negative) = not negative

pub record FormatMeta : Type 0 where
  pub version : Number
  pub backend : Text
  pub created_at : Text

module _ (inner : Backend) (name : Text) (parse : Text → Option FormatMeta)
    (print : FormatMeta → Text) where
  unfoldable pub read_format_meta : Action inner.World (Option FormatMeta)
  unfolding catch
  read_format_meta =
      catch (do text ← inner.read_text_file format_meta_path; pure (parse text)) (λ _. pure none)

  unfoldable pub write_format_meta : Text → Action inner.World FormatMeta
  write_format_meta iso = do
    let meta : FormatMeta = record {
      version = fraction false storage_format_version 0;
      backend = name;
      created_at = iso;
    }
    inner.mkdir (codes "/.tactile") recursively
    inner.write_text_file format_meta_path (print meta) no_version
    pure meta

  unfoldable pub check_version : Text → Option FormatMeta → Action inner.World FormatMeta
  unfolding write_format_meta exceeds
  check_version iso none = write_format_meta iso
  check_version iso (some meta) =
      if exceeds storage_format_version meta.version then throw plain else pure meta

  unfoldable pub ensure_format_version : Text → Action inner.World FormatMeta
  unfolding read_format_meta check_version
  ensure_format_version iso = do found ← read_format_meta; check_version iso found
