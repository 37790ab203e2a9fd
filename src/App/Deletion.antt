-- ===== src/App/Deletion.antt =====
-- What deleting a note does.
use tactile.Base.{ℕ, ◌≡◌, Option, none, List, [], ◌∷◌, ◌++◌, Text, if◌then◌else◌, Result, ok, err}
use tactile.Storage.{Action, ◌>>=◌, pure}
use tactile.App.{Environment, App, Toast, success, error, get_app, toast}
use tactile.App.Notes.{clean_dirty, discard, attempt, after_delete}

module _ (env : Environment) where
  -- What of the state a deletion may change besides the backend's.
  abbrev pub view : App env → Option Text × (Option Text × List Toast)
  view a = (a.active_file, (a.dirty_path, a.toasts))

  -- What is left where the storage is there: `b` is the state that discarding the entry leaves.
  abbrev pub Discarded :
      Text → App env → Result (Unit {0}) × App env → Result (Unit {0}) × App env → Type 0
  Discarded path a (ok _, b) (r, c) =
      (r ≡ ok tt)
      × (c.world ≡ b.world)
      × (view c ≡ (none, (clean_dirty path a.dirty_path, a.toasts ++ success ∷ [])))
  Discarded path a (err e, b) (r, c) =
      (r ≡ ok tt)
      × (c.world ≡ b.world)
      × (view c ≡ (a.active_file, (a.dirty_path, a.toasts ++ error ∷ [])))

  -- The outcome by what the storage and then the discarding of the entry return.
  abbrev pub Deleted :
      ℕ
      → Text
      → Text
      → App env
      → Result (Unit {0}) × env.backend.World
      → Result (Unit {0}) × App env
      → Type 0
  Deleted now iso path a (ok _, w) c =
      Discarded path a (discard env now iso path a.trash_dir (record a { world = w })) c
  Deleted now iso path a (err e, w) c = c ≡ (err e, record a { world = w })

  -- What `delete_note` does after the entry was discarded.
  abbrev finished : Text → Result (Unit {0}) × App env → Result (Unit {0}) × App env
  finished path (ok _, b) = after_delete env path b
  finished path (err e, b) = toast env error b

  -- What `delete_note` does once the storage is there.
  abbrev deleting : ℕ → Text → Text → Action (App env) (Unit {0})
  deleting now iso path = get_app env >>= λ app.
      attempt env (discard env now iso path app.trash_dir) >>= λ done.
      if done then after_delete env path else pure tt
