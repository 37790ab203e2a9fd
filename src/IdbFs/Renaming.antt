-- ===== src/IdbFs/Renaming.antt =====
-- `rename` of packages/storage/src/idbfs.ts.
use tactile.Base.{
  ℕ, Option, some, none, List, [], ◌∷◌, ◌++◌, Text, text_eq, ok, err, storage, not_found,
  already_exists, invalid_path, length, drop, if◌then◌else◌, Result,
}
use tactile.Paths.{normalize_path, parent_path, is_root, is_under}
use tactile.Storage.{
  rename, BackendOptions, origin_or_local, Action, ◌>>=◌, ◌>>◌, pure, throw, lift,
}
use tactile.ObjectStore.{ObjectStore, EntryRecord}
use tactile.IdbFs.{
  Fs, get_record, stage_put, transaction, delete_record, get_all_records, emit_change,
  require_parent,
}

module _ (store : ObjectStore) where
  -- `all.filter((r) => r.path === src || isUnder(r.path, src))`
  unfoldable pub affected_by : Text → List EntryRecord → Result (List EntryRecord)
  unfolding is_under
  affected_by src [] = ok []
  affected_by src (r ∷ rs) = elim (affected_by src rs) [
    | err e ↦ err e
    | ok rest ↦ if text_eq r.path src then ok (r ∷ rest) else elim (is_under r.path src) [
      | err e ↦ err e
      | ok below ↦ ok (if below then r ∷ rest else rest)
    ]
  ]

  -- The loop of `rename` that rewrites the affected records under the new prefix.
  unfoldable pub move_all : ℕ → Text → Text → List EntryRecord → Action (Fs store) (Unit {0})
  unfolding parent_path delete_record stage_put
  move_all now src dst [] = pure tt
  move_all now src dst (r ∷ rs) = do
    let path = dst ++ drop (length src) r.path
    parent ← lift (parent_path path)
    delete_record store r.path
    stage_put store (record r { path = path; parent = parent; mtime = now })
    move_all now src dst rs

  unfoldable pub require_some : Option EntryRecord → Action (Fs store) (Unit {0})
  require_some none = throw (storage not_found)
  require_some (some r) = pure tt

  unfoldable pub require_none : Option EntryRecord → Action (Fs store) (Unit {0})
  require_none none = pure tt
  require_none (some r) = throw (storage already_exists)

  unfoldable pub rename_records : ℕ → Text → Text → Action (Fs store) (Unit {0})
  unfolding get_record require_some require_none parent_path require_parent get_all_records
      affected_by move_all
  rename_records now src dst = do
    found ← get_record store src
    require_some found
    there ← get_record store dst
    require_none there
    parent ← lift (parent_path dst)
    require_parent store parent
    all ← get_all_records store
    affected ← lift (affected_by src all)
    move_all now src dst affected

  unfoldable pub rename_path : ℕ → Text → Text → BackendOptions → Action (Fs store) (Unit {0})
  unfolding normalize_path is_root is_under rename_records emit_change
  rename_path now from to options = do
    src ← lift (normalize_path from)
    dst ← lift (normalize_path to)
    root ← lift (is_root src)
    if root then throw (storage invalid_path) else if text_eq src dst then pure tt else do
      inside ← lift (is_under dst src)
      if inside then throw (storage invalid_path) else do
        transaction store (rename_records now src dst)
        emit_change store (record {
          path = dst;
          kind = rename;
          origin = origin_or_local options;
          old_path = some src;
        })
