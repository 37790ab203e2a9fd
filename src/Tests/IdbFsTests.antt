-- ===== src/Tests/IdbFsTests.antt =====
-- The theorems on packages/storage/src/idbfs.ts at a file system with one directory and one file.
use tactile.Base.{
  ◌≡◌, refl, inl, inr, true, false, some, none, [], ◌∷◌, Text, codes, ok, text_eq, split, join,
  Ensures-ok,
}
use tactile.Paths.{normalize_path, collect_segments, parent_of, last_index_of}
use tactile.Paths.Normal.{IsNormal, normalize_path-IsNormal}
use tactile.Paths.Known.{root}
use tactile.Storage.{text, bytes, BackendOptions}
use tactile.ObjectStore.{EntryRecord, dir}
use tactile.ObjectStore.Memory.{memory, get}
use tactile.IdbFs.{Fs, write_record, write_text_file, read_text_file}
use tactile.IdbFs.Making.{mkdir}
use tactile.IdbFs.Removing.{remove}
use tactile.IdbFs.Tree.{IsServed, Holds, HasDir, IsTree, IsTree-put}
use tactile.IdbFs.Write.{Written, NoDirAt, write_record_lem, read-write_text_file}
use tactile.IdbFs.Mkdir.{Grown, mkdir_lem}
use tactile.IdbFs.Remove.{Removed, remove_recursive_lem}

abbrev notes : Text
notes = codes "/notes"

abbrev note : Text
note = codes "/notes/a.md"

abbrev deep : Text
deep = codes "/notes/x/y"

abbrev notes_entry : EntryRecord
notes_entry = record {
  path = notes;
  parent = codes "/";
  kind = dir;
  contents = text [];
  size = 0;
  mtime = 1;
  ctime = 1;
}

abbrev options : BackendOptions
options = record { keep_version = none; recursive = true; origin = none }

unfoldable empty : memory.Db
unfolding memory
empty = []

unfoldable fs : Fs memory
unfolding memory
fs = record { db = notes_entry ∷ []; events = [] }

notes-normalized : normalize_path notes ≡ ok notes
unfolding normalize_path collect_segments split join text_eq
notes-normalized = refl

note-normalized : normalize_path note ≡ ok note
unfolding normalize_path collect_segments split join text_eq
note-normalized = refl

deep-normalized : normalize_path deep ≡ ok deep
unfolding normalize_path collect_segments split join text_eq
deep-normalized = refl

notes-IsNormal : IsNormal notes
notes-IsNormal =
    Ensures-ok IsNormal (normalize_path notes) (normalize_path-IsNormal notes) notes-normalized

empty-IsTree : IsTree memory empty
unfolding empty memory get
empty-IsTree = record { at = λ p r found. absurd (cc found) }

fs-IsTree : IsTree memory fs.db
unfolding fs empty memory parent_of last_index_of text_eq
fs-IsTree =
    IsTree-put memory empty notes_entry empty-IsTree notes-IsNormal refl refl (inl refl) (inl refl)

notes-stored : memory.get fs.db notes ≡ some notes_entry
unfolding fs memory get text_eq
notes-stored = refl

note-HasDir : HasDir memory fs.db (parent_of note)
unfolding fs memory get text_eq parent_of last_index_of
note-HasDir = inr (notes_entry, refl, refl)

note-free : NoDirAt memory fs.db note
unfolding fs memory get text_eq
note-free = inl refl

below_root : text_eq note root ≡ false
unfolding text_eq
below_root = refl

notes_below_root : text_eq notes root ≡ false
unfolding text_eq
notes_below_root = refl

memory-IsServed : IsServed memory
unfolding memory
memory-IsServed = λ _ _. refl

write_record_lem_example :
    Holds
      (λ _ s. Written memory fs note (bytes (1 ∷ [])) s)
      (λ _ s. s ≡ fs)
      (write_record memory 5 note (bytes (1 ∷ [])) 1 options fs)
write_record_lem_example =
    write_record_lem memory 5 note note (bytes (1 ∷ [])) 1 options fs fs-IsTree note-normalized
      below_root

read-write_text_file_example :
    Holds
      (λ _ s. (read_text_file memory (λ b. b) note s).0 ≡ ok (codes "hi"))
      (λ _ _. ⊥)
      (write_text_file memory 5 note (codes "hi") options fs)
read-write_text_file_example =
    read-write_text_file memory (λ b. b) 5 note note (codes "hi") options fs fs-IsTree
      note-normalized below_root note-HasDir note-free memory-IsServed

mkdir_lem_example :
    Holds
      (λ _ s. Grown memory fs s × HasDir memory s.db deep)
      (λ _ s. Grown memory fs s)
      (mkdir memory 7 deep options fs)
mkdir_lem_example = mkdir_lem memory 7 deep deep options fs fs-IsTree deep-normalized

remove_recursive_lem_example :
    Holds (λ _ s. Removed memory fs notes s) (λ _ _. ⊥) (remove memory notes options fs)
remove_recursive_lem_example =
    remove_recursive_lem memory notes notes options fs notes_entry fs-IsTree notes-normalized
      notes_below_root notes-stored refl memory-IsServed
