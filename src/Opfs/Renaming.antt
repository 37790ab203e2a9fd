-- ===== src/Opfs/Renaming.antt =====
-- `rename` of packages/storage/src/opfs.ts, with its copy of files and directories.
use tactile.Base.{
  plain, ℕ, zero, suc, true, false, not, Option, some, none, List, [], ◌∷◌, ◌++◌, Text, text_eq,
  starts_with, storage, invalid_path, if◌then◌else◌,
}
use tactile.Paths.{normalize_path, path_segments, parent_path, slash}
use tactile.Storage.{
  Action, ◌>>=◌, ◌>>◌, pure, throw, lift, rename, BackendOptions, origin_or_local,
}
use tactile.Storage.Backend.{catch}
use tactile.Opfs.{
  Handle, FileSystem, says_not_found, Opfs, call, emit_change, init, resolve_parent, resolve_dir,
  file_in, read_file, directory, plain_file,
}
use tactile.Opfs.Writing.{overwrite, make_dirs, remove_internal}

module _ (fs : FileSystem) (root_name : Text) where
  unfoldable pub copy_file :
      fs.DirHandle → Text → fs.FileHandle → Action (Opfs fs root_name) (Unit {0})
  unfolding call overwrite
  copy_file dst name handle = do
    found ← call fs root_name (fs.get_file handle)
    out ← call fs root_name (fs.get_file_handle dst name true)
    overwrite fs root_name found.0 out

  -- `copyDirRecursive` and its loop over the entries. `depth` bounds how deep directories nest; a
  -- deeper one throws, as where the stack is exhausted, and never counts as copied.
  unfoldable pub copy_entries :
      ℕ
      → fs.DirHandle
      → List (Text × Handle fs.DirHandle fs.FileHandle)
      → Action (Opfs fs root_name) (Unit {0})
  unfolding call copy_file
  copy_entries zero dst [] = pure tt
  copy_entries zero dst ((name, directory d) ∷ rest) = throw plain
  copy_entries zero dst ((name, plain_file f) ∷ rest) = do
    copy_file dst name f
    copy_entries zero dst rest
  copy_entries (suc depth) dst [] = pure tt
  copy_entries (suc depth) dst ((name, directory d) ∷ rest) = do
    child ← call fs root_name (fs.get_directory_handle dst name true)
    inside ← call fs root_name (fs.entries d)
    copy_entries depth child inside
    copy_entries (suc depth) dst rest
  copy_entries (suc depth) dst ((name, plain_file f) ∷ rest) = do
    copy_file dst name f
    copy_entries (suc depth) dst rest

  unfoldable pub copy_dir : ℕ → Text → Text → Action (Opfs fs root_name) (Unit {0})
  unfolding resolve_dir path_segments init make_dirs call copy_entries
  copy_dir depth from to = do
    dir ← resolve_dir fs root_name from
    segments ← lift (path_segments to)
    root ← init fs root_name
    dst ← make_dirs fs root_name root segments
    inside ← call fs root_name (fs.entries dir)
    copy_entries depth dst inside

  unfoldable pub copy_as_file : Text → Text → Action (Opfs fs root_name) (Unit {0})
  unfolding read_file resolve_parent file_in overwrite
  copy_as_file from to = do
    contents ← read_file fs root_name from
    at ← resolve_parent fs root_name to
    handle ← file_in fs root_name true at
    overwrite fs root_name contents handle

  unfoldable pub copy_handle : ℕ → Text → Text → Action (Opfs fs root_name) (Unit {0})
  unfolding catch copy_dir says_not_found copy_as_file
  copy_handle depth from to =
      catch (copy_dir depth from to)
        (λ e. if says_not_found e then copy_as_file from to else throw e)

  unfoldable pub emit_rename : Text → Text → BackendOptions → Action (Opfs fs root_name) (Unit {0})
  unfolding emit_change
  emit_rename src dst options =
      emit_change fs root_name (record {
        path = dst;
        kind = rename;
        origin = origin_or_local options;
        old_path = some src;
      })

  unfoldable pub copy_and_remove :
      ℕ → Text → Text → BackendOptions → Action (Opfs fs root_name) (Unit {0})
  unfolding copy_handle remove_internal emit_rename
  copy_and_remove depth src dst options = do
    copy_handle depth src dst
    remove_internal fs root_name src false
    emit_rename src dst options

  -- The native `move`, and the copy where there is none or it throws.
  unfoldable pub move_or_copy :
      ℕ
      → Text
      → Text
      → BackendOptions
      → fs.DirHandle
      → Option fs.DirHandle
      → Text
      → Action (Opfs fs root_name) (Unit {0})
  unfolding catch call emit_rename copy_and_remove
  move_or_copy depth src dst options handle into name =
      if not fs.can_move
      then copy_and_remove depth src dst options
      else catch (do call fs root_name (fs.move handle into name); emit_rename src dst options)
          (λ _. copy_and_remove depth src dst options)

  -- The source handle: `getDirectoryHandle` is returned from the `try` without `await`, so that the
  -- `catch` around it, which would ask for a file, does not see its rejection.
  unfoldable pub source_handle : fs.DirHandle × Text → Action (Opfs fs root_name) fs.DirHandle
  unfolding call
  source_handle at = call fs root_name (fs.get_directory_handle at.0 at.1 false)

  unfoldable pub rename_resolved :
      ℕ
      → Text
      → Text
      → BackendOptions
      → fs.DirHandle × Text
      → fs.DirHandle × Text
      → Action (Opfs fs root_name) (Unit {0})
  unfolding parent_path source_handle move_or_copy
  rename_resolved depth src dst options from to = do
    src_parent ← lift (parent_path src)
    dst_parent ← lift (parent_path dst)
    handle ← source_handle from
    move_or_copy depth src dst options handle
        (if text_eq src_parent dst_parent then none else some to.0) to.1

  unfoldable pub rename_normal :
      ℕ → Text → Text → BackendOptions → Action (Opfs fs root_name) (Unit {0})
  unfolding resolve_parent rename_resolved
  rename_normal depth src dst options = do
    from ← resolve_parent fs root_name src
    to ← resolve_parent fs root_name dst
    rename_resolved depth src dst options from to

  unfoldable pub rename_path :
      ℕ → Text → Text → BackendOptions → Action (Opfs fs root_name) (Unit {0})
  unfolding normalize_path rename_normal
  rename_path depth from to options = do
    src ← lift (normalize_path from)
    dst ← lift (normalize_path to)
    if text_eq src (slash ∷ [])
        then throw (storage invalid_path)
        else if text_eq dst src
        then pure tt
        else if starts_with dst (src ++ (slash ∷ []))
        then throw (storage invalid_path)
        else rename_normal depth src dst options
