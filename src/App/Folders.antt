-- ===== src/App/Folders.antt =====
-- packages/core/src/api/folders.ts. `now` and `iso` are the time of the call, for the trash.
use tactile.Base.{ℕ, Bool, true, not, ◌&&◌, List, [], map, Text, codes, text_eq, any, if◌then◌else◌}
use tactile.Storage.{Action, ◌>>=◌, ◌>>◌, pure, DirEntry}
use tactile.Storage.Backend.{no_options, recursively}
use tactile.Naming.{get_next_untitled_name}
use tactile.App.{
  with_storage, Environment, App, TrashDir, system_trash, tactile_trash, delete_for_good, success,
  error, call, get_app, toast, read_dir_or_empty, file_name, directory_of, single_slash, in_dir,
}
use tactile.App.Trash.{move_to_trash}
use tactile.App.Notes.{attempt, to_system_trash}

-- An entry but `.DS_Store`.
unfoldable pub has_children : List DirEntry → Bool
has_children entries = any (λ (e : DirEntry). not (text_eq e.name (codes ".DS_Store"))) entries

unfoldable pub has_folder : Text → List DirEntry → Bool
has_folder name entries = any (λ (e : DirEntry). text_eq e.name name && e.is_directory) entries

module _ (env : Environment) where
  unfoldable pub create_folder : Text → Action (App env) Text
  unfolding with_storage read_dir_or_empty get_next_untitled_name single_slash call
  create_folder dir = with_storage env (do
    entries ← read_dir_or_empty env dir
    let path = single_slash (
        in_dir dir (
          get_next_untitled_name env.to_lower env.same (map (λ (e : DirEntry). e.name) entries)
            (codes "Untitled") []))
    call env (env.backend.mkdir path recursively)
    pure path)

  unfoldable pub discard_folder : ℕ → Text → Text → TrashDir → Action (App env) (Unit {0})
  unfolding call to_system_trash move_to_trash
  discard_folder now iso path delete_for_good = call env (env.backend.remove path recursively)
  discard_folder now iso path system_trash =
      to_system_trash env now iso path true env.move_to_system_trash
  discard_folder now iso path tactile_trash = move_to_trash env now iso path true

  -- The deletion, once the folder is known to be empty or to go with its entries.
  unfoldable pub delete_checked : ℕ → Text → Text → Action (App env) (Unit {0})
  unfolding get_app attempt discard_folder toast
  delete_checked now iso path = do
    app ← get_app env
    done ← attempt env (discard_folder now iso path app.trash_dir)
    (if done then toast env success else pure tt)

  unfoldable pub delete_if_empty : ℕ → Text → Text → Action (App env) (Unit {0})
  unfolding read_dir_or_empty has_children toast delete_checked
  delete_if_empty now iso path = do
    entries ← read_dir_or_empty env path
    (if has_children entries then toast env error else delete_checked now iso path)

  unfoldable pub delete_folder : ℕ → Text → Text → Bool → Action (App env) (Unit {0})
  unfolding with_storage delete_checked delete_if_empty
  delete_folder now iso path recursive =
      with_storage env
        (if recursive then delete_checked now iso path else delete_if_empty now iso path)

  unfoldable pub rename_folder : Text → Text → Action (App env) (Unit {0})
  unfolding with_storage attempt call directory_of
  rename_folder path name = with_storage env (do
    attempt env (call env (env.backend.rename path (in_dir (directory_of path) name) no_options))
    pure tt)

  unfoldable pub move_folder : Text → Text → Action (App env) (Unit {0})
  unfolding with_storage call file_name has_folder toast attempt
  move_folder from target = with_storage env (do
    entries ← call env (env.backend.read_dir target)
    (if has_folder (file_name from) entries then toast env error else do
      attempt env (call env (env.backend.rename from (in_dir target (file_name from)) no_options))
      pure tt))
