-- ===== src/App/Frame.antt =====
-- What the calls of the storage backend leave: everything of the state that is not the backend's.
use tactile.Base.{
  ℕ, Bool, true, false, not, ◌||◌, ◌≡◌, ◌∙◌, Option, some, none, List, [], ◌∷◌, ◌++◌, Text, text_eq,
  if◌then◌else◌, to_decimal,
}
use tactile.Storage.{Action, ◌>>=◌, pure}
use tactile.Storage.Backend.{
  no_options, recursively, no_version, catch, Keeps, Keeps-bind, Keeps-catch,
}
use tactile.App.{
  with_storage, Environment, App, TrashItem, TrashDir, system_trash, tactile_trash, delete_for_good,
  call, get_app, file_name, in_dir,
}
use tactile.App.Trash.{
  manifest_path, trash_path, items_of, read_manifest, write_manifest, trash_target, move_to_trash,
}
use tactile.App.Notes.{is_set, save_note, content_of, strip_heading, to_system_trash, discard}

module _ (env : Environment) {V : Type 0} (view : App env → V)
    (same : (a : App env) (w : env.backend.World) → view (record a { world = w }) ≡ view a)
    (v : V) where
  abbrev Seen : App env → Type 0
  Seen a = view a ≡ v

  Keeps-call : {A : Type 0} (m : Action env.backend.World A) → Keeps Seen (call env m)
  unfolding call
  Keeps-call m a h = same a (m a.world).1 ∙ h

  Keeps-with_storage :
      {A : Type 0} (m : Action (App env) A) → Keeps Seen m → Keeps Seen (with_storage env m)
  unfolding with_storage
  Keeps-with_storage m k =
      Keeps-bind Seen (call env env.get_storage) (λ _. m) (Keeps-call env.get_storage) (λ _. k)

  Keeps-get_app :
      {A : Type 0} (f : App env → Action (App env) A)
      → ((a : App env) → Keeps Seen (f a))
      → Keeps Seen (get_app env >>= f)
  unfolding get_app
  Keeps-get_app f k a h = k a a h

  pub Keeps-save_note : (path : Text) → Keeps Seen (save_note env path)
  unfolding save_note
  Keeps-save_note path =
      Keeps-get_app
        (λ app.
          if text_eq path [] || not (is_set app.active_file)
          then pure tt
          else with_storage env (
              call env
                (env.backend.write_text_file path (strip_heading (content_of env app)) no_options)))
        λ app. saved app (text_eq path [] || not (is_set app.active_file))
    where
      saved :
          (app : App env) (b : Bool)
          → Keeps Seen (
              if b
              then pure tt
              else with_storage env (
                  call env (
                    env.backend.write_text_file path
                      (strip_heading (content_of env app))
                      no_options)))
      saved app true = λ a h. h
      saved app false =
          Keeps-with_storage
            (call env
              (env.backend.write_text_file path (strip_heading (content_of env app)) no_options))
            (Keeps-call
              (env.backend.write_text_file path (strip_heading (content_of env app)) no_options))

  Keeps-read_manifest : Keeps Seen (read_manifest env)
  unfolding read_manifest
  Keeps-read_manifest =
      let rest : App env → Action (App env) (List TrashItem) = λ app.
        call env (env.backend.read_text_file (manifest_path env app.collection)) >>= λ text.
        pure (items_of env (env.parse_manifest text)) in
      Keeps-with_storage (catch (get_app env >>= rest) (λ _. pure [])) (
        Keeps-catch Seen (get_app env >>= rest) (λ _. pure [])
          (Keeps-get_app rest λ app.
            Keeps-bind Seen
              (call env (env.backend.read_text_file (manifest_path env app.collection)))
              (λ text. pure (items_of env (env.parse_manifest text)))
              (Keeps-call (env.backend.read_text_file (manifest_path env app.collection)))
              λ text a h. h)
          λ e a h. h)

  Keeps-write_manifest : (items : List TrashItem) → Keeps Seen (write_manifest env items)
  unfolding write_manifest
  Keeps-write_manifest items =
      let write : App env → Action (App env) (Unit {0}) = λ app. call env (
        env.backend.write_text_file (manifest_path env app.collection)
          (env.stringify_manifest items) no_version) in
      Keeps-with_storage (get_app env >>= write) (
        Keeps-get_app write λ app. Keeps-call (
          env.backend.write_text_file (manifest_path env app.collection)
            (env.stringify_manifest items) no_version))

  Keeps-trash_target : (now : ℕ) (dir name : Text) → Keeps Seen (trash_target env now dir name)
  unfolding trash_target
  Keeps-trash_target now dir name =
      Keeps-bind Seen (call env (env.backend.exists (in_dir dir name)))
        (λ taken. pure (in_dir dir (if taken then to_decimal now ++ (b'-' ∷ name) else name)))
        (Keeps-call (env.backend.exists (in_dir dir name))) λ taken a h. h

  Keeps-move_to_trash :
      (now : ℕ) (iso path : Text) (is_folder : Bool)
      → Keeps Seen (move_to_trash env now iso path is_folder)
  unfolding move_to_trash
  Keeps-move_to_trash now iso path is_folder =
      let listed : Text → List TrashItem → List TrashItem = λ target items.
        items
        ++ record {
          name = file_name target;
          original_path = path;
          deleted_at = iso;
          is_folder = is_folder;
        }
          ∷ [] in
      let noted : Text → Action (App env) (Unit {0}) =
        λ target. read_manifest env >>= λ items. write_manifest env (listed target items) in
      let moved : Text → Action (App env) (Unit {0}) =
        λ target. call env (env.backend.rename path target no_options) >>= λ _. noted target in
      let placed : App env → Action (App env) (Unit {0}) = λ app.
        call env (env.backend.mkdir (trash_path env app.collection) recursively) >>= λ _.
        trash_target env now (trash_path env app.collection) (file_name path) >>= moved in
      Keeps-with_storage (get_app env >>= placed) (
        Keeps-get_app placed λ app.
          Keeps-bind Seen (call env (env.backend.mkdir (trash_path env app.collection) recursively))
            (λ _. trash_target env now (trash_path env app.collection) (file_name path) >>= moved)
            (Keeps-call (env.backend.mkdir (trash_path env app.collection) recursively))
            λ _.
              Keeps-bind Seen
                (trash_target env now (trash_path env app.collection) (file_name path)) moved
                (Keeps-trash_target now (trash_path env app.collection) (file_name path))
                λ target.
                  Keeps-bind Seen (call env (env.backend.rename path target no_options))
                    (λ _. noted target) (Keeps-call (env.backend.rename path target no_options))
                    λ _.
                      Keeps-bind Seen (read_manifest env)
                        (λ items. write_manifest env (listed target items)) Keeps-read_manifest
                        λ items. Keeps-write_manifest (listed target items))

  Keeps-to_system_trash :
      (now : ℕ) (iso path : Text) (is_folder : Bool)
      (m : Option (Text → Action env.backend.World (Unit {0})))
      → Keeps Seen (to_system_trash env now iso path is_folder m)
  unfolding to_system_trash
  Keeps-to_system_trash now iso path is_folder none = Keeps-move_to_trash now iso path is_folder
  Keeps-to_system_trash now iso path is_folder (some m) = Keeps-call (m path)

  pub Keeps-discard :
      (now : ℕ) (iso path : Text) (dir : TrashDir) → Keeps Seen (discard env now iso path dir)
  unfolding discard
  Keeps-discard now iso path delete_for_good = Keeps-call (env.backend.remove path no_options)
  Keeps-discard now iso path system_trash =
      Keeps-to_system_trash now iso path false env.move_to_system_trash
  Keeps-discard now iso path tactile_trash = Keeps-move_to_trash now iso path false
