-- ===== src/App/Trash.antt =====
-- packages/core/src/api/trash.ts. An operation is given the time and its ISO form.
use tactile.Base.{
  ℕ, Bool, not, Option, some, none, List, [], ◌∷◌, ◌++◌, Text, codes, plain, text_eq, filter,
  if◌then◌else◌, to_decimal, text_lt,
}
use tactile.Storage.{Action, ◌>>=◌, ◌>>◌, pure, throw}
use tactile.Storage.Backend.{catch, no_options, recursively, no_version}
use tactile.App.{
  with_storage, Environment, App, TrashItem, call, get_app, file_name, directory_of, or_root,
  in_dir,
}

module _ (env : Environment) where
  unfoldable pub manifest_path : Text → Text
  manifest_path collection = in_dir collection (codes ".tactile/trash.json")

  unfoldable pub trash_path : Text → Text
  trash_path collection = in_dir collection (codes ".tactile/trash")

  unfoldable pub items_of : Option (List TrashItem) → List TrashItem
  items_of none = []
  items_of (some items) = items

  unfoldable pub read_manifest : Action (App env) (List TrashItem)
  unfolding with_storage catch get_app call manifest_path items_of
  read_manifest = with_storage env (
      catch
        (do
          app ← get_app env
          text ← call env (env.backend.read_text_file (manifest_path app.collection))
          pure (items_of (env.parse_manifest text)))
        (λ _. pure []))

  unfoldable pub write_manifest : List TrashItem → Action (App env) (Unit {0})
  unfolding with_storage get_app call manifest_path
  write_manifest items = with_storage env (do
    app ← get_app env
    call env (
        env.backend.write_text_file (manifest_path app.collection) (env.stringify_manifest items)
          no_version))

  -- A free target in the trash: the time goes in front of a name that is there.
  unfoldable pub trash_target : ℕ → Text → Text → Action (App env) Text
  unfolding call to_decimal
  trash_target now dir name = do
    taken ← call env (env.backend.exists (in_dir dir name))
    pure (in_dir dir (if taken then to_decimal now ++ (b'-' ∷ name) else name))

  unfoldable pub move_to_trash : ℕ → Text → Text → Bool → Action (App env) (Unit {0})
  unfolding with_storage get_app call trash_path trash_target file_name read_manifest write_manifest
  move_to_trash now iso path is_folder = with_storage env (do
    app ← get_app env
    call env (env.backend.mkdir (trash_path app.collection) recursively)
    target ← trash_target now (trash_path app.collection) (file_name path)
    call env (env.backend.rename path target no_options)
    items ← read_manifest
    write_manifest (
        items
        ++ record {
          name = file_name target;
          original_path = path;
          deleted_at = iso;
          is_folder = is_folder;
        }
          ∷ []))

  -- `sort((a, b) => b.deletedAt.localeCompare(a.deletedAt))`: the stamps are ASCII of one form.
  unfoldable pub insert_item : TrashItem → List TrashItem → List TrashItem
  unfolding text_lt
  insert_item t [] = t ∷ []
  insert_item t (x ∷ xs) =
      let later = insert_item t xs in
      if text_lt t.deleted_at x.deleted_at then x ∷ later else t ∷ x ∷ xs

  unfoldable pub sort_items : List TrashItem → List TrashItem
  unfolding insert_item
  sort_items [] = []
  sort_items (t ∷ ts) = insert_item t (sort_items ts)

  unfoldable pub list_trash : Action (App env) (List TrashItem)
  unfolding read_manifest sort_items
  list_trash = do items ← read_manifest; pure (sort_items items)

  unfoldable pub find_item : Text → List TrashItem → Option TrashItem
  find_item name [] = none
  find_item name (t ∷ ts) = if text_eq t.name name then some t else find_item name ts

  -- `items.filter((entry) => entry.name !== name)`
  unfoldable pub without_item : Text → List TrashItem → List TrashItem
  without_item name items = filter (λ t. not (text_eq t.name name)) items

  unfoldable pub some_item : Option TrashItem → Action (App env) TrashItem
  some_item none = throw plain
  some_item (some t) = pure t

  -- The move back, once the target is known to be free.
  unfoldable pub put_back : Text → Text → Text → List TrashItem → Action (App env) (Unit {0})
  unfolding call trash_path directory_of or_root write_manifest without_item
  put_back collection name target items = do
    call env (env.backend.mkdir (or_root (directory_of target)) recursively)
    call env (env.backend.rename (in_dir (trash_path collection) name) target no_options)
    write_manifest (without_item name items)

  unfoldable pub restore_item : Text → List TrashItem → TrashItem → Action (App env) (Unit {0})
  unfolding get_app call put_back
  restore_item name items item = do
    app ← get_app env
    taken ← call env (env.backend.exists item.original_path)
    (if taken then throw plain else put_back app.collection name item.original_path items)

  unfoldable pub restore_from_trash : Text → Action (App env) (Unit {0})
  unfolding with_storage read_manifest find_item some_item restore_item
  restore_from_trash name = with_storage env (do
    items ← read_manifest
    item ← some_item (find_item name items)
    restore_item name items item)

  unfoldable pub remove_if_there : Text → Action (App env) (Unit {0})
  unfolding call
  remove_if_there path = do
    there ← call env (env.backend.exists path)
    (if there then call env (env.backend.remove path recursively) else pure tt)

  unfoldable pub delete_trash_item : Text → Action (App env) (Unit {0})
  unfolding with_storage get_app trash_path remove_if_there read_manifest write_manifest
      without_item
  delete_trash_item name = with_storage env (do
    app ← get_app env
    remove_if_there (in_dir (trash_path app.collection) name)
    items ← read_manifest
    write_manifest (without_item name items))

  unfoldable pub empty_trash : Action (App env) (Unit {0})
  unfolding with_storage get_app trash_path remove_if_there call write_manifest
  empty_trash = with_storage env (do
    app ← get_app env
    remove_if_there (trash_path app.collection)
    call env (env.backend.mkdir (trash_path app.collection) recursively)
    write_manifest [])
