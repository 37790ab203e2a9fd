-- ===== src/App/Moving.antt =====
-- Renaming, moving and duplicating a note in packages/core/src/api/notes.ts.
use tactile.Base.{false, not, some, map, Text, codes, plain, text_eq, filter, if◌then◌else◌}
use tactile.Storage.{Action, ◌>>=◌, ◌>>◌, pure, throw, DirEntry}
use tactile.Storage.Backend.{no_options}
use tactile.Naming.{copy_name}
use tactile.App.{
  with_storage, Environment, App, error, call, change, toast, detached, read_dir_or_empty,
  file_name, directory_of, or_root, single_slash, in_dir,
}
use tactile.App.Notes.{
  moved_dirty, with_extension, is_breaking, stem_of, extension_of, has_name, has_folded_file,
  open_note, attempt,
}

module _ (env : Environment) where
  -- The move itself, once the name is known to be free.
  unfoldable pub rename_to : Text → Text → Action (App env) (Unit {0})
  unfolding call change moved_dirty
  rename_to path target = do
    call env (env.backend.rename path target no_options)
    change env (λ a. record a {
      dirty_path = moved_dirty path target a.dirty_path;
      active_file = some target;
    })

  unfoldable pub rename_clean : Text → Text → Action (App env) (Unit {0})
  unfolding directory_of or_root call has_folded_file rename_to
  rename_clean path name = do
    entries ← call env (env.backend.read_dir (or_root (directory_of path)))
    (if has_folded_file env.to_lower name entries
        then throw plain
        else rename_to path (in_dir (directory_of path) name))

  unfoldable pub rename_note : Text → Text → Action (App env) (Unit {0})
  unfolding with_storage with_extension is_breaking rename_clean
  rename_note path given = with_storage env (
      let name = filter (λ c. not (is_breaking c)) (with_extension given) in
      if text_eq name (codes ".md") then throw plain else rename_clean path name)

  -- What follows a successful move.
  unfoldable pub after_move : Text → Text → Text → Action (App env) (Unit {0})
  unfolding change moved_dirty single_slash detached open_note
  after_move from target name = do
    change env (λ a. record a {
      dirty_path = moved_dirty from (single_slash (in_dir target name)) a.dirty_path;
    })
    detached env (open_note env (in_dir target name) false)

  unfoldable pub move_free : Text → Text → Text → Action (App env) (Unit {0})
  unfolding attempt call single_slash after_move
  move_free from target name = do
    done ←
        attempt env
          (call env (env.backend.rename from (single_slash (in_dir target name)) no_options))
    (if done then after_move from target name else pure tt)

  unfoldable pub move_note : Text → Text → Action (App env) (Unit {0})
  unfolding with_storage read_dir_or_empty file_name has_name toast move_free
  move_note from target = with_storage env (do
    entries ← read_dir_or_empty env target
    (if has_name (file_name from) entries
        then toast env error
        else move_free from target (file_name from)))

  unfoldable pub duplicate_note : Text → Action (App env) (Unit {0})
  unfolding with_storage call directory_of or_root copy_name stem_of extension_of detached open_note
  duplicate_note path = with_storage env (do
    contents ← call env (env.backend.read_text_file path)
    entries ← call env (env.backend.read_dir (or_root (directory_of path)))
    call env (
        env.backend.write_text_file
          (in_dir (or_root (directory_of path)) (
            copy_name env.same (stem_of path) (extension_of path)
              (map (λ (e : DirEntry). e.name) entries)))
          contents no_options)
    detached env (
        open_note env
          (in_dir (or_root (directory_of path)) (
            copy_name env.same (stem_of path) (extension_of path)
              (map (λ (e : DirEntry). e.name) entries)))
          false))
