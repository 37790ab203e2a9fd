-- ===== src/IdbFs/Removing.antt =====
-- `remove` of packages/storage/src/idbfs.ts.
use tactile.Base.{
  Bool, not, ◌&&◌, Option, some, none, List, [], ◌∷◌, Text, text_eq, ok, err, storage, not_found,
  not_empty, invalid_path, length, ltb, if◌then◌else◌, Result,
}
use tactile.Paths.{normalize_path, is_root, is_under}
use tactile.Storage.{
  delete, BackendOptions, origin_or_local, Action, ◌>>=◌, ◌>>◌, pure, throw, lift,
}
use tactile.ObjectStore.{ObjectStore, EntryRecord}
use tactile.IdbFs.{is_dir, Fs, transaction, get_record, delete_record, get_all_records, emit_change}

module _ (store : ObjectStore) where
  -- `all.filter((r) => r.path !== path && isUnder(r.path, path))`
  unfoldable pub descendants : Text → List EntryRecord → Result (List EntryRecord)
  unfolding is_under
  descendants path [] = ok []
  descendants path (r ∷ rs) = elim (descendants path rs) [
    | err e ↦ err e
    | ok rest ↦ if text_eq r.path path then ok rest else elim (is_under r.path path) [
      | err e ↦ err e
      | ok below ↦ ok (if below then r ∷ rest else rest)
    ]
  ]

  unfoldable pub delete_all : List EntryRecord → Action (Fs store) (Unit {0})
  unfolding delete_record
  delete_all [] = pure tt
  delete_all (r ∷ rs) = do delete_record store r.path; delete_all rs

  -- What `remove` does to a directory: it wants the recursive option if anything is below.
  unfoldable pub remove_below : Text → Bool → List EntryRecord → Action (Fs store) (Unit {0})
  unfolding delete_all delete_record
  remove_below path recursive below =
      if ltb 0 (length below) && not recursive
      then throw (storage not_empty)
      else (do delete_all below; delete_record store path)

  unfoldable pub remove_dir : Text → Bool → Action (Fs store) (Unit {0})
  unfolding get_all_records descendants remove_below
  remove_dir path recursive = do
    all ← get_all_records store
    lift (descendants path all) >>= remove_below path recursive

  -- What `remove` does to the record that it found.
  unfoldable pub remove_found : Text → Bool → Option EntryRecord → Action (Fs store) (Unit {0})
  unfolding remove_dir delete_record
  remove_found path recursive none = throw (storage not_found)
  remove_found path recursive (some r) =
      if is_dir r.kind then remove_dir path recursive else delete_record store path

  unfoldable pub remove : Text → BackendOptions → Action (Fs store) (Unit {0})
  unfolding normalize_path is_root transaction get_record remove_found emit_change
  remove path options = do
    normalized ← lift (normalize_path path)
    root ← lift (is_root normalized)
    if root then throw (storage invalid_path) else do
      transaction store (get_record store normalized >>= remove_found normalized options.recursive)
      emit_change store (record {
        path = normalized;
        kind = delete;
        origin = origin_or_local options;
        old_path = none;
      })
