-- ===== src/IdbFs/Making.antt =====
-- `mkdir` of packages/storage/src/idbfs.ts.
use tactile.Base.{
  ℕ, Option, some, none, List, [], ◌∷◌, ◌++◌, Text, storage, already_exists, if◌then◌else◌,
}
use tactile.Paths.{slash, normalize_path, parent_path, is_root, path_segments}
use tactile.Storage.{
  create, BackendOptions, origin_or_local, text, Action, ◌>>=◌, ◌>>◌, pure, throw, lift,
}
use tactile.ObjectStore.{ObjectStore, EntryRecord, dir}
use tactile.IdbFs.{is_dir, Fs, get_record, put_record, emit_change, require_parent}

module _ (store : ObjectStore) where
  unfoldable pub make_missing : ℕ → Text → Option EntryRecord → Action (Fs store) (Unit {0})
  unfolding parent_path put_record
  make_missing now dir_path none = do
    parent ← lift (parent_path dir_path)
    put_record store (record {
      path = dir_path;
      parent = parent;
      kind = dir;
      contents = text [];
      size = 0;
      mtime = now;
      ctime = now;
    })
  make_missing now dir_path (some r) =
      if is_dir r.kind then pure tt else throw (storage already_exists)

  unfoldable pub make_dir : ℕ → Text → Action (Fs store) (Unit {0})
  unfolding get_record make_missing
  make_dir now dir_path = do
    existing ← get_record store dir_path
    make_missing now dir_path existing

  -- `for (const segment of segments) { current += '/' + segment; await makeDir(current); }`
  unfoldable pub make_dirs : ℕ → Text → List Text → Action (Fs store) (Unit {0})
  unfolding make_dir
  make_dirs now current [] = pure tt
  make_dirs now current (segment ∷ rest) = do
    make_dir now (current ++ slash ∷ segment)
    make_dirs now (current ++ slash ∷ segment) rest

  unfoldable pub make_one : ℕ → Text → Action (Fs store) (Unit {0})
  unfolding parent_path require_parent make_dir
  make_one now normalized = do
    parent ← lift (parent_path normalized)
    require_parent store parent
    make_dir now normalized

  unfoldable pub make_all : ℕ → Text → Action (Fs store) (Unit {0})
  unfolding path_segments make_dirs
  make_all now normalized = do segments ← lift (path_segments normalized); make_dirs now [] segments

  unfoldable pub mkdir : ℕ → Text → BackendOptions → Action (Fs store) (Unit {0})
  unfolding normalize_path is_root make_all make_one emit_change
  mkdir now path options = do
    normalized ← lift (normalize_path path)
    root ← lift (is_root normalized)
    if root then pure tt else do
      (if options.recursive then make_all now normalized else make_one now normalized)
      emit_change store (record {
        path = normalized;
        kind = create;
        origin = origin_or_local options;
        old_path = none;
      })
