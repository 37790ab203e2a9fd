-- ===== src/Tests/OpfsTests.antt =====
-- The theorems on packages/storage/src/opfs.ts, with a file system of one file, `a.md`, in its root.
use tactile.Base.{
  true, false, refl, some, [], ◌∷◌, Text, codes, text_eq, Result, ok, err, dom, DomError,
  not_found_error, type_mismatch_error, if◌then◌else◌,
}
use tactile.Opfs.{FileSystem, Opfs, plain_file, read_file}
use tactile.Opfs.Errors.{Translated, IsOpen, Translated-read_file}

abbrev a_md : Text
a_md = codes "a.md"

-- What asking for a name gives: a directory handle of a file is a type mismatch.
abbrev asked : Text → DomError
asked name = if text_eq name a_md then type_mismatch_error else not_found_error

abbrev file_asked : Text → Result Text
file_asked name = if text_eq name a_md then ok name else err (dom not_found_error)

abbrev one_file : FileSystem
one_file = record {
  World = Unit;
  DirHandle = Unit;
  FileHandle = Text;
  Stream = Text;
  available = true;
  get_directory = λ w. (ok tt, w);
  get_directory_handle = λ _ name _ w. (err (dom (asked name)), w);
  get_file_handle = λ _ name _ w. (file_asked name, w);
  entries = λ _ w. (ok ((a_md, plain_file a_md) ∷ []), w);
  get_file = λ _ w. (ok (104 ∷ 105 ∷ [], 7), w);
  create_writable = λ f w. (ok f, w);
  stream_write = λ _ _ w. (ok tt, w);
  stream_close = λ _ w. (ok tt, w);
  stream_abort = λ _ w. (ok tt, w);
  remove_entry = λ _ _ _ w. (ok tt, w);
  can_move = false;
  move = λ _ _ _ w. (ok tt, w);
}

abbrev root_name : Text
root_name = codes "tactile"

abbrev opened : Opfs one_file root_name
opened = record { world = tt; root = some tt; events = [] }

Translated-read_file_example :
    Translated
      (IsOpen one_file root_name)
      (read_file one_file root_name (codes "/missing/b.md") opened)
Translated-read_file_example =
    Translated-read_file one_file root_name (codes "/missing/b.md") opened (tt, refl)
