-- ===== src/IdbFs.antt =====
-- packages/storage/src/idbfs.ts: the file system kept in IndexedDB records.
--
-- `store` is the object store and `decode` the runtime's `TextDecoder`. An operation is given the
-- time at which it runs. A request that is rejected, or a database that does not open, is what the
-- store's `refused` says; a transaction that does not commit leaves the records as they were. Each
-- operation is modelled from its start to its end without other operations between its requests: the
-- mutex makes that so for two writes of one path only, and `mkdir` takes no lock. Change listeners
-- are the list of emitted events.
pub mod Tree
pub mod Write
pub mod Mkdir
pub mod Below
pub mod Remove
pub mod Renaming
pub mod Removing
pub mod Making
use tactile.Base.{
  dom, ℕ, Bool, true, false, not, ◌&&◌, ◌||◌, ◌+◌, Option, some, none, List, [], ◌∷◌, ◌++◌, map,
  Text, text_eq, ok, err, Failure, storage, not_found, already_exists, not_empty, is_directory,
  not_directory, invalid_path, length, drop, utf8, code_points, leb, ltb, if◌then◌else◌, Result,
}
use tactile.Paths.{slash, normalize_path, parent_path, base_name, is_root, is_under, path_segments}
use tactile.Storage.{
  DirEntry, FileStat, ChangeKind, write, create, rename, delete, ChangeOrigin, ChangeEvent,
  BackendOptions, origin_or_local, FileData, text, bytes, Action, ◌>>=◌, ◌>>◌, pure, throw, lift,
}
use tactile.ObjectStore.{
  ObjectStore, EntryRecord, EntryKind, file, dir, Request, getting, getting_children, putting,
  getting_all, committing,
}

-- `new TextEncoder().encode(s)`: a lone surrogate is encoded as U+FFFD.
unfoldable pub encode_points : List ℕ → List ℕ
unfolding utf8
encode_points [] = []
encode_points (p ∷ ps) =
    utf8 (if leb 0xd800 p && ltb p 0xe000 then 0xfffd else p) ++ encode_points ps

unfoldable pub utf8_encode : Text → List ℕ
unfolding encode_points code_points
utf8_encode s = encode_points (code_points s)

abbrev pub is_dir : EntryKind → Bool
is_dir dir = true
is_dir file = false

module _ (store : ObjectStore) where
  -- The database and the events emitted so far.
  pub record Fs : Type 0 where
    pub db : store.Db
    pub events : List ChangeEvent

  -- `await requestToPromise(…)`
  unfoldable pub awaited : {A : Type 0} → Request → Action Fs A → Action Fs A
  awaited request m fs = elim (store.refused fs.db request) [
    | none ↦ m fs
    | some e ↦ (err (dom e), fs)
  ]

  -- `await txDone(tx)` after what was done in a transaction: one that throws or that is rejected
  -- leaves the state before it.
  unfoldable pub commit : {A : Type 0} → Fs → Result A × Fs → Result A × Fs
  commit fs (err e, s) = (err e, fs)
  commit fs (ok a, s) = elim (store.refused s.db committing) [
    | none ↦ (ok a, s)
    | some e ↦ (err (dom e), fs)
  ]

  unfoldable pub transaction : {A : Type 0} → Action Fs A → Action Fs A
  unfolding commit
  transaction m fs = commit fs (m fs)

  unfoldable pub get_record : Text → Action Fs (Option EntryRecord)
  unfolding awaited
  get_record path = awaited (getting path) (λ fs. (ok (store.get fs.db path), fs))

  -- A `put` that is not awaited; where it fails, its transaction does.
  unfoldable pub stage_put : EntryRecord → Action Fs (Unit {0})
  stage_put r fs = (ok tt, record fs { db = store.put fs.db r })

  unfoldable pub put_record : EntryRecord → Action Fs (Unit {0})
  unfolding awaited stage_put
  put_record r = awaited (putting r) (stage_put r)

  -- A `delete` that is not awaited; where it fails, its transaction does.
  unfoldable pub delete_record : Text → Action Fs (Unit {0})
  delete_record path fs = (ok tt, record fs { db = store.delete fs.db path })

  unfoldable pub get_all_records : Action Fs (List EntryRecord)
  unfolding awaited
  get_all_records = awaited getting_all (λ fs. (ok (store.get_all fs.db), fs))

  unfoldable pub list_children : Text → Action Fs (List EntryRecord)
  unfolding awaited
  list_children path =
      awaited (getting_children path) (λ fs. (ok (store.get_by_parent fs.db path), fs))

  unfoldable pub emit_change : ChangeEvent → Action Fs (Unit {0})
  emit_change e fs = (ok tt, record fs { events = fs.events ++ e ∷ [] })

  -- `if (!record || record.kind !== 'dir') throw …` with the code that the caller gives.
  unfoldable pub require_dir : Failure → Failure → Option EntryRecord → Action Fs (Unit {0})
  require_dir missing other none = throw missing
  require_dir missing other (some r) = if is_dir r.kind then pure tt else throw other

  unfoldable pub dir_entry : EntryRecord → Result DirEntry
  unfolding base_name
  dir_entry r = elim (base_name r.path) [
    | err e ↦ err e
    | ok name ↦ ok (record {
      name = name;
      is_directory = is_dir r.kind;
      is_file = not (is_dir r.kind);
      is_symlink = false;
    })
  ]

  unfoldable pub dir_entries : List EntryRecord → Action Fs (List DirEntry)
  unfolding dir_entry
  dir_entries [] = pure []
  dir_entries (r ∷ rs) = do entry ← lift (dir_entry r); rest ← dir_entries rs; pure (entry ∷ rest)

  -- `if (!isRoot(path)) { … }`: the path must be a directory.
  unfoldable pub require_dir_at : Failure → Failure → Text → Bool → Action Fs (Unit {0})
  unfolding get_record require_dir
  require_dir_at missing other path true = pure tt
  require_dir_at missing other path false = do
    found ← get_record path
    require_dir missing other found

  -- The parent of a path is the root or a directory.
  unfoldable pub require_parent : Text → Action Fs (Unit {0})
  unfolding require_dir_at is_root
  require_parent parent = do
    root ← lift (is_root parent)
    require_dir_at (storage not_found) (storage not_found) parent root

  unfoldable pub read_dir : Text → Action Fs (List DirEntry)
  unfolding normalize_path is_root require_dir_at list_children dir_entries
  read_dir path = do
    normalized ← lift (normalize_path path)
    root ← lift (is_root normalized)
    require_dir_at (storage not_found) (storage not_directory) normalized root
    children ← list_children normalized
    dir_entries children

  unfoldable pub require_file : Option EntryRecord → Action Fs EntryRecord
  require_file none = throw (storage not_found)
  require_file (some r) = if is_dir r.kind then throw (storage is_directory) else pure r

  unfoldable pub get_file_record : Text → Action Fs EntryRecord
  unfolding normalize_path get_record require_file
  get_file_record path = do
    normalized ← lift (normalize_path path)
    found ← get_record normalized
    require_file found

  unfoldable pub as_bytes : FileData → List ℕ
  unfolding utf8_encode
  as_bytes (text s) = utf8_encode s
  as_bytes (bytes b) = b

  unfoldable pub as_text : (List ℕ → Text) → FileData → Text
  as_text decode (text s) = s
  as_text decode (bytes b) = decode b

  unfoldable pub read_file : Text → Action Fs (List ℕ)
  unfolding get_file_record as_bytes
  read_file path = do r ← get_file_record path; pure (as_bytes r.contents)

  unfoldable pub read_text_file : (List ℕ → Text) → Text → Action Fs Text
  unfolding get_file_record as_text
  read_text_file decode path = do r ← get_file_record path; pure (as_text decode r.contents)

  -- `existing?.ctime ?? now`, and the refusal to write over a directory.
  unfoldable pub refuse_dir : Option EntryRecord → ℕ → Action Fs ℕ
  refuse_dir none now = pure now
  refuse_dir (some r) now = if is_dir r.kind then throw (storage is_directory) else pure r.ctime

  -- The record that `writeRecord` puts, and the event.
  unfoldable pub store_file :
      ℕ → Text → Text → FileData → ℕ → BackendOptions → ℕ → Action Fs (Unit {0})
  unfolding put_record emit_change
  store_file now normalized parent contents size options ctime = do
    put_record (record {
      path = normalized;
      parent = parent;
      kind = file;
      contents = contents;
      size = size;
      mtime = now;
      ctime = ctime;
    })
    emit_change (record {
      path = normalized;
      kind = write;
      origin = origin_or_local options;
      old_path = none;
    })

  unfoldable pub write_at : ℕ → Text → Text → FileData → ℕ → BackendOptions → Action Fs (Unit {0})
  unfolding get_record refuse_dir store_file
  write_at now normalized parent contents size options = do
    existing ← get_record normalized
    ctime ← refuse_dir existing now
    store_file now normalized parent contents size options ctime

  unfoldable pub write_record : ℕ → Text → FileData → ℕ → BackendOptions → Action Fs (Unit {0})
  unfolding normalize_path parent_path require_parent write_at
  write_record now path contents size options = do
    normalized ← lift (normalize_path path)
    parent ← lift (parent_path normalized)
    require_parent parent
    write_at now normalized parent contents size options

  unfoldable pub write_text_file : ℕ → Text → Text → BackendOptions → Action Fs (Unit {0})
  unfolding write_record utf8_encode
  write_text_file now path contents options =
      write_record now path (text contents) (length (utf8_encode contents)) options

  unfoldable pub write_file : ℕ → Text → List ℕ → BackendOptions → Action Fs (Unit {0})
  unfolding write_record
  write_file now path contents options =
      write_record now path (bytes contents) (length contents) options

  unfoldable pub stat_of : Option EntryRecord → Action Fs FileStat
  stat_of none = throw (storage not_found)
  stat_of (some r) = pure (record { size = r.size; mtime = some r.mtime; birthtime = some r.ctime })

  unfoldable pub stat : Text → Action Fs FileStat
  unfolding normalize_path is_root get_record stat_of
  stat path = do
    normalized ← lift (normalize_path path)
    root ← lift (is_root normalized)
    if root
        then pure (record { size = 0; mtime = none; birthtime = none })
        else do found ← get_record normalized; stat_of found

  unfoldable pub exists : Text → Action Fs Bool
  unfolding normalize_path is_root get_record
  exists path = do
    normalized ← lift (normalize_path path)
    root ← lift (is_root normalized)
    if root
        then pure true
        else do found ← get_record normalized; pure (elim found [ none ↦ false | some r ↦ true ])
