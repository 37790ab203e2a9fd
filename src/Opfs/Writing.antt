-- ===== src/Opfs/Writing.antt =====
-- The operations of packages/storage/src/opfs.ts that write, make and remove.
use tactile.Base.{
  ℕ, Bool, true, none, List, [], ◌∷◌, Text, text_eq, storage, invalid_path, if◌then◌else◌,
}
use tactile.Paths.{normalize_path, path_segments, slash}
use tactile.Storage.{
  Action, ◌>>=◌, ◌>>◌, pure, throw, lift, write, create, delete, BackendOptions, origin_or_local,
}
use tactile.Storage.Backend.{catch}
use tactile.IdbFs.{utf8_encode}
use tactile.Opfs.{
  FileSystem, translated, remove_error, Opfs, call, emit_change, init, resolve_parent, file_in,
}

module _ (fs : FileSystem) (root_name : Text) where
  -- `write`, `close`, and `abort` where one of them throws.
  unfoldable pub fill : fs.Stream → List ℕ → Action (Opfs fs root_name) (Unit {0})
  unfolding catch call
  fill stream contents =
      catch
        (do
          call fs root_name (fs.stream_write stream contents)
          call fs root_name (fs.stream_close stream))
        (λ e. do catch (call fs root_name (fs.stream_abort stream)) (λ _. pure tt); throw e)

  unfoldable pub overwrite : List ℕ → fs.FileHandle → Action (Opfs fs root_name) (Unit {0})
  unfolding call fill
  overwrite contents handle = do
    stream ← call fs root_name (fs.create_writable handle)
    fill stream contents

  unfoldable pub write_in : List ℕ → fs.DirHandle × Text → Action (Opfs fs root_name) (Unit {0})
  unfolding translated file_in overwrite
  write_in contents at = translated (file_in fs root_name true at >>= overwrite contents)

  unfoldable pub write_bytes :
      Text → List ℕ → BackendOptions → Action (Opfs fs root_name) (Unit {0})
  unfolding normalize_path resolve_parent write_in emit_change
  write_bytes path contents options = do
    normalized ← lift (normalize_path path)
    resolve_parent fs root_name normalized >>= write_in contents
    emit_change fs root_name (record {
      path = normalized;
      kind = write;
      origin = origin_or_local options;
      old_path = none;
    })

  unfoldable pub write_text_file :
      Text → Text → BackendOptions → Action (Opfs fs root_name) (Unit {0})
  unfolding utf8_encode write_bytes
  write_text_file path contents options = write_bytes path (utf8_encode contents) options

  -- `getDirectoryHandle(segment, { create: true })` down the segments: errors are not translated.
  unfoldable pub make_dirs : fs.DirHandle → List Text → Action (Opfs fs root_name) fs.DirHandle
  unfolding call
  make_dirs dir [] = pure dir
  make_dirs dir (segment ∷ rest) = do
    next ← call fs root_name (fs.get_directory_handle dir segment true)
    make_dirs next rest

  unfoldable pub make_one : Text → Action (Opfs fs root_name) (Unit {0})
  unfolding resolve_parent translated call
  make_one normalized = do
    at ← resolve_parent fs root_name normalized
    translated (do call fs root_name (fs.get_directory_handle at.0 at.1 true); pure tt)

  unfoldable pub make_all : fs.DirHandle → Text → Action (Opfs fs root_name) (Unit {0})
  unfolding path_segments make_dirs
  make_all root normalized = do
    segments ← lift (path_segments normalized)
    make_dirs root segments
    pure tt

  unfoldable pub mkdir : Text → BackendOptions → Action (Opfs fs root_name) (Unit {0})
  unfolding normalize_path init make_all make_one emit_change
  mkdir path options = do
    normalized ← lift (normalize_path path)
    if text_eq normalized (slash ∷ []) then pure tt else do
      root ← init fs root_name
      (if options.recursive then make_all root normalized else make_one normalized)
      emit_change fs root_name (record {
        path = normalized;
        kind = create;
        origin = origin_or_local options;
        old_path = none;
      })

  unfoldable pub remove_internal : Text → Bool → Action (Opfs fs root_name) (Unit {0})
  unfolding resolve_parent catch call remove_error
  remove_internal path recursive = do
    at ← resolve_parent fs root_name path
    catch (call fs root_name (fs.remove_entry at.0 at.1 recursive)) (λ e. throw (remove_error e))

  unfoldable pub remove : Text → BackendOptions → Action (Opfs fs root_name) (Unit {0})
  unfolding normalize_path remove_internal emit_change
  remove path options = do
    normalized ← lift (normalize_path path)
    if text_eq normalized (slash ∷ []) then throw (storage invalid_path) else do
      remove_internal normalized options.recursive
      emit_change fs root_name (record {
        path = normalized;
        kind = delete;
        origin = origin_or_local options;
        old_path = none;
      })
