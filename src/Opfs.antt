-- ===== src/Opfs.antt =====
-- packages/storage/src/opfs.ts: the backend on the browser's private file system.
--
-- The browser's file handles are the parameter `FileSystem`, `text_of` its `text()` of a file, by the
-- file's bytes, which may throw.
-- An operation runs from its start to its end without other operations between its awaited calls;
-- the mutex and the web locks order only those that take the same key.
pub mod Errors
pub mod Renaming
pub mod Writing
use tactile.Base.{
  ℕ, zero, suc, Bool, true, false, not, ◌&&◌, ◌||◌, Option, some, none, List, [], ◌∷◌, ◌++◌, map,
  Text, text_eq, starts_with, Result, ok, err, Failure, storage, plain, uri, dom, DomError,
  not_found_error, type_mismatch_error, no_modification_allowed_error, quota_exceeded_error,
  invalid_modification_error, other_error, not_found, not_empty, is_directory, invalid_path,
  unsupported, locked, quota, length, already_exists, not_directory, if◌then◌else◌, ErrorCode,
}
use tactile.Paths.{normalize_path, path_segments, parent_path, slash}
use tactile.Storage.{
  Action, ◌>>=◌, ◌>>◌, pure, throw, lift, DirEntry, FileStat, ChangeEvent, ChangeOrigin, write,
  create, rename, delete, BackendOptions, origin_or_local,
}
use tactile.Storage.Backend.{catch}
use tactile.IdbFs.{utf8_encode}

-- A directory handle or a file handle.
pub data Handle (D F : Type 0) : Type 0 where
  directory : D → Handle D F
  plain_file : F → Handle D F

pub record FileSystem : Type 1 where
  pub World : Type 0
  pub DirHandle : Type 0
  pub FileHandle : Type 0
  pub Stream : Type 0
  -- `navigator.storage?.getDirectory` is there.
  pub available : Bool
  pub get_directory : Action World DirHandle
  -- The flag is `create`.
  pub get_directory_handle : DirHandle → Text → Bool → Action World DirHandle
  pub get_file_handle : DirHandle → Text → Bool → Action World FileHandle
  pub entries : DirHandle → Action World (List (Text × Handle DirHandle FileHandle))
  -- The bytes of a file and `lastModified`.
  pub get_file : FileHandle → Action World (List ℕ × ℕ)
  pub create_writable : FileHandle → Action World Stream
  pub stream_write : Stream → List ℕ → Action World (Unit {0})
  pub stream_close : Stream → Action World (Unit {0})
  pub stream_abort : Stream → Action World (Unit {0})
  pub remove_entry : DirHandle → Text → Bool → Action World (Unit {0})
  -- `move` of a directory handle, where the browser has it: into a directory if one is given.
  pub can_move : Bool
  pub move : DirHandle → Option DirHandle → Text → Action World (Unit {0})

-- `toStorageError`: what is thrown in place of an error.
unfoldable pub to_storage_error : Failure → Failure
to_storage_error (dom not_found_error) = storage not_found
to_storage_error (dom type_mismatch_error) = storage is_directory
to_storage_error (dom no_modification_allowed_error) = storage locked
to_storage_error (dom quota_exceeded_error) = storage quota
to_storage_error (dom invalid_modification_error) = dom invalid_modification_error
to_storage_error (dom other_error) = dom other_error
to_storage_error (storage c) = storage c
to_storage_error plain = plain
to_storage_error uri = uri

-- `try { … } catch (error) { toStorageError(error, path); }`
unfoldable pub translated : {S A : Type 0} → Action S A → Action S A
unfolding catch to_storage_error
translated m = catch m (λ e. throw (to_storage_error e))

-- The errors of `removeEntry`.
unfoldable pub remove_error : Failure → Failure
unfolding to_storage_error
remove_error (dom invalid_modification_error) = storage not_empty
remove_error (dom not_found_error) = storage not_found
remove_error (dom type_mismatch_error) = storage is_directory
remove_error (dom no_modification_allowed_error) = storage locked
remove_error (dom quota_exceeded_error) = storage quota
remove_error (dom other_error) = dom other_error
remove_error (storage c) = storage c
remove_error plain = plain
remove_error uri = uri

-- `isNotFound(error) || error.code === 'not_found'`
unfoldable pub says_not_found : Failure → Bool
says_not_found (dom not_found_error) = true
says_not_found (dom type_mismatch_error) = false
says_not_found (dom no_modification_allowed_error) = false
says_not_found (dom quota_exceeded_error) = false
says_not_found (dom invalid_modification_error) = false
says_not_found (dom other_error) = false
says_not_found (storage not_found) = true
says_not_found (storage invalid_path) = false
says_not_found (storage already_exists) = false
says_not_found (storage not_empty) = false
says_not_found (storage is_directory) = false
says_not_found (storage not_directory) = false
says_not_found (storage unsupported) = false
says_not_found (storage locked) = false
says_not_found (storage quota) = false
says_not_found plain = false
says_not_found uri = false

-- All segments but the last, and the last.
unfoldable pub split_last : Text → List Text → List Text × Text
split_last s [] = ([], s)
split_last s (t ∷ rest) = let (front, last) = split_last t rest in (s ∷ front, last)

module _ (fs : FileSystem) (root_name : Text) where
  pub record Opfs : Type 0 where
    pub world : fs.World
    -- `rootPromise`, once it is fulfilled.
    pub root : Option fs.DirHandle
    pub events : List ChangeEvent

  unfoldable pub call : {A : Type 0} → Action fs.World A → Action Opfs A
  call m s = let (r, w) = m s.world in (r, record s { world = w })

  unfoldable pub emit_change : ChangeEvent → Action Opfs (Unit {0})
  emit_change e s = (ok tt, record s { events = s.events ++ e ∷ [] })

  unfoldable pub keep_root : fs.DirHandle → Action Opfs fs.DirHandle
  keep_root dir s = (ok dir, record s { root = some dir })

  unfoldable pub open_root : Action Opfs fs.DirHandle
  unfolding call keep_root
  open_root = if not fs.available then throw (storage unsupported) else do
    top ← call fs.get_directory
    dir ← call (fs.get_directory_handle top root_name true)
    keep_root dir

  -- A root that is kept is not opened again; a failed attempt is not kept.
  unfoldable pub init : Action Opfs fs.DirHandle
  unfolding open_root
  init s = elim (s.root) [ some dir ↦ (ok dir, s) | none ↦ open_root s ]

  -- `dir = await dir.getDirectoryHandle(segment)` for each segment.
  unfoldable pub descend : fs.DirHandle → List Text → Action Opfs fs.DirHandle
  unfolding call translated
  descend dir [] = pure dir
  descend dir (segment ∷ rest) = do
    next ← translated (call (fs.get_directory_handle dir segment false))
    descend next rest

  unfoldable pub descend_from_root : List Text → Action Opfs fs.DirHandle
  unfolding init descend
  descend_from_root segments = do root ← init; descend root segments

  unfoldable pub with_name : Text → fs.DirHandle → Action Opfs (fs.DirHandle × Text)
  with_name name dir = pure (dir, name)

  unfoldable pub resolve_in : List Text → Action Opfs (fs.DirHandle × Text)
  unfolding split_last descend_from_root with_name
  resolve_in [] = throw (storage invalid_path)
  resolve_in (s ∷ rest) =
      descend_from_root (split_last s rest).0 >>= with_name (split_last s rest).1

  unfoldable pub resolve_parent : Text → Action Opfs (fs.DirHandle × Text)
  unfolding normalize_path path_segments resolve_in
  resolve_parent path = do
    normalized ← lift (normalize_path path)
    segments ← lift (path_segments normalized)
    resolve_in segments

  unfoldable pub resolve_dir : Text → Action Opfs fs.DirHandle
  unfolding normalize_path path_segments descend_from_root
  resolve_dir path = do
    normalized ← lift (normalize_path path)
    segments ← lift (path_segments normalized)
    descend_from_root segments

  -- `dir.getFileHandle(name)` on what `resolveParent` gives.
  unfoldable pub file_in : Bool → fs.DirHandle × Text → Action Opfs fs.FileHandle
  unfolding call
  file_in made at = call (fs.get_file_handle at.0 at.1 made)

  unfoldable pub translated_file_in : fs.DirHandle × Text → Action Opfs fs.FileHandle
  unfolding translated file_in
  translated_file_in at = translated (file_in false at)

  unfoldable pub resolve_file : Text → Action Opfs fs.FileHandle
  unfolding normalize_path resolve_parent translated_file_in
  resolve_file path = do
    normalized ← lift (normalize_path path)
    resolve_parent normalized >>= translated_file_in

  unfoldable pub is_directory_handle : Handle fs.DirHandle fs.FileHandle → Bool
  is_directory_handle (directory d) = true
  is_directory_handle (plain_file f) = false

  unfoldable pub dir_entry : Text × Handle fs.DirHandle fs.FileHandle → DirEntry
  unfolding is_directory_handle
  dir_entry e = record {
    name = e.0;
    is_directory = is_directory_handle e.1;
    is_file = not (is_directory_handle e.1);
    is_symlink = false;
  }

  unfoldable pub read_dir : Text → Action Opfs (List DirEntry)
  unfolding normalize_path resolve_dir call dir_entry
  read_dir path = do
    normalized ← lift (normalize_path path)
    dir ← resolve_dir normalized
    found ← call (fs.entries dir)
    pure (map dir_entry found)

  unfoldable pub bytes_of : fs.FileHandle → Action Opfs (List ℕ)
  unfolding call translated
  bytes_of handle = translated (do found ← call (fs.get_file handle); pure found.0)

  unfoldable pub read_file : Text → Action Opfs (List ℕ)
  unfolding normalize_path resolve_file bytes_of
  read_file path = do normalized ← lift (normalize_path path); resolve_file normalized >>= bytes_of

  -- `file.text()` is returned, not awaited: what it throws is not translated.
  unfoldable pub read_text_file : (List ℕ → Result Text) → Text → Action Opfs Text
  unfolding normalize_path resolve_file translated call
  read_text_file text_of path = do
    normalized ← lift (normalize_path path)
    handle ← resolve_file normalized
    found ← translated (call (fs.get_file handle))
    lift (text_of found.0)

  -- A file's size and time; a directory where there is no file of the name.
  unfoldable pub stat_in : fs.DirHandle × Text → Action Opfs FileStat
  unfolding catch file_in call translated
  stat_in at =
      catch
        (do
          handle ← file_in false at
          found ← call (fs.get_file handle)
          pure (record { size = length found.0; mtime = some found.1; birthtime = none }))
        (λ _. translated (do
          call (fs.get_directory_handle at.0 at.1 false)
          pure (record { size = 0; mtime = none; birthtime = none })))

  unfoldable pub stat : Text → Action Opfs FileStat
  unfolding normalize_path resolve_parent stat_in
  stat path = do
    normalized ← lift (normalize_path path)
    (if text_eq normalized (slash ∷ [])
        then pure (record { size = 0; mtime = none; birthtime = none })
        else resolve_parent normalized >>= stat_in)

  -- A `StorageError` with the code `not_found`.
  unfoldable pub is_not_found : Failure → Bool
  unfolding says_not_found
  is_not_found (storage c) = says_not_found (storage c)
  is_not_found (dom d) = false
  is_not_found plain = false
  is_not_found uri = false

  unfoldable pub exists : Text → Action Opfs Bool
  unfolding normalize_path catch stat is_not_found
  exists path = do
    normalized ← lift (normalize_path path)
    (if text_eq normalized (slash ∷ [])
        then pure true
        else catch (do stat normalized; pure true)
            (λ e. if is_not_found e then pure false else throw e))
