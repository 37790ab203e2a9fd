-- ===== src/App/Open.antt =====
-- What opening a note does.
use mathlib.Core.Path.{subst}
use tactile.Base.{
  Bool, false, ◌≡◌, refl, sym, ap, ◌∙◌, inl, inr, ◌⊎◌, Option, some, none, [], ◌∷◌, Text, Result,
  ok, err,
}
use tactile.Storage.{Action, ◌>>=◌, pure, >>=-ok, >>=-err}
use tactile.Storage.Backend.{Keeps-catch}
use tactile.App.{with_storage, Environment, App, call, get_app, change}
use tactile.App.Notes.{is_set, save_note, save_pending, show_note, open_note}
use tactile.App.Frame.{Keeps-save_note}

module _ (env : Environment) where
  -- What is open: the active file and the two buffers.
  abbrev pub open_file : App env → Option Text × (Text × Text)
  open_file a = (a.active_file, (a.source_content, a.editor_content))

  save_pending_lem :
      (a : App env)
      → (open_file (save_pending env a.dirty_path a).1 ≡ open_file a)
        × (is_set (save_pending env a.dirty_path a).1.dirty_path ≡ false)
  unfolding save_pending
  save_pending_lem a = known a.dirty_path refl
    where
      known :
          (d : Option Text)
          → a.dirty_path ≡ d
          → (open_file (save_pending env d a).1 ≡ open_file a)
            × (is_set (save_pending env d a).1.dirty_path ≡ false)
      known none e = (refl, ap is_set e)
      known (some []) e = (refl, ap is_set e)
      known (some (c ∷ cs)) e =
          let view : App env → (Option Text × (Text × Text)) × Option Text =
            λ b. (open_file b, b.dirty_path) in
          let kept =
            Keeps-catch (λ b. view b ≡ (open_file a, none)) (save_note env (c ∷ cs)) (λ _. pure tt)
              (Keeps-save_note env view (λ _ _. refl) (open_file a, none) (c ∷ cs)) (λ _ _ h. h)
              (record a { dirty_path = none }) refl in
          (ap (λ v. v.0) kept, ap (λ v. is_set v.1) kept)

  -- The file is open, or it could not be read, or there is no storage.
  abbrev pub Opened : Text → App env → Result (Unit {0}) × App env → Type 0
  Opened path a (ok _, b) =
      (b.active_file ≡ some path)
      × (b.dirty_path ≡ none)
      × (b.editor_content ≡ b.source_content)
      × ((w : env.backend.World) × ((env.backend.read_text_file path w).0 ≡ ok b.source_content))
  Opened path a (err e, b) =
      (open_file b ≡ open_file a)
      × ((is_set b.dirty_path ≡ false)
          ⊎ ((b.dirty_path ≡ a.dirty_path) × ((env.get_storage a.world).0 ≡ err e)))

  Opened-read :
      (path : Text) (skip_history : Bool) (a b : App env)
      → (open_file b ≡ open_file a) × (is_set b.dirty_path ≡ false)
      → Opened path a
          ((call env (env.backend.read_text_file path) >>= show_note env path skip_history) b)
  unfolding call show_note change
  Opened-read path skip_history a b h = read (env.backend.read_text_file path b.world) refl
    where
      read :
          (r : Result Text × env.backend.World)
          → env.backend.read_text_file path b.world ≡ r
          → Opened path a
              ((call env (env.backend.read_text_file path) >>= show_note env path skip_history) b)
      read (ok contents, w) e =
          subst (Opened path a)
            (sym (
              >>=-ok (call env (env.backend.read_text_file path)) (show_note env path skip_history)
                b (ap (λ r. (r.0, record b { world = r.1 })) e)))
            (refl, refl, refl, (b.world, ap (λ r. r.0) e))
      read (err f, w) e =
          subst (Opened path a)
            (sym (
              >>=-err (call env (env.backend.read_text_file path)) (show_note env path skip_history)
                b (ap (λ r. (r.0, record b { world = r.1 })) e)))
            (h.0, inl h.1)

  -- A note that is opened becomes the active file, both buffers hold what was read, and nothing is
  -- dirty; a note that cannot be read leaves the open file and the buffers as they were, and nothing
  -- is dirty either. Whether the pending edits were saved plays no part. Where the storage throws
  -- before anything is read, the dirty note is as before too, and that is what is thrown.
  pub Opened-open_note :
      (path : Text) (skip_history : Bool) (a : App env)
      → Opened path a (open_note env path skip_history a)
  unfolding open_note with_storage call get_app
  Opened-open_note path skip_history a = stored (env.get_storage a.world) refl
    where
      opened : Action (App env) (Unit {0})
      opened = get_app env >>= λ app. save_pending env app.dirty_path >>= λ _.
          call env (env.backend.read_text_file path) >>= show_note env path skip_history

      saved :
          (a b : App env)
          → (open_file b ≡ open_file a)
          → (r : Result (Unit {0}) × App env)
          → (open_file r.1 ≡ open_file b) × (is_set r.1.dirty_path ≡ false)
          → Opened path a (elim (r.0) [
            | ok _ ↦
                (call env (env.backend.read_text_file path) >>= show_note env path skip_history) r.1
            | err e ↦ (err e, r.1)
          ])
      saved a b k (ok _, c) h = Opened-read path skip_history a c (h.0 ∙ k, h.1)
      saved a b k (err e, c) h = (h.0 ∙ k, inl h.1)

      stored :
          (r : Result (Unit {0}) × env.backend.World)
          → env.get_storage a.world ≡ r
          → Opened path a (open_note env path skip_history a)
      stored (ok _, w) e =
          let b : App env = record a { world = w } in
          subst (Opened path a)
            (sym (
              >>=-ok (call env env.get_storage) (λ _. opened) a
                (ap (λ r. (r.0, record a { world = r.1 })) e)))
            (saved a b refl (save_pending env b.dirty_path b) (save_pending_lem b))
      stored (err f, w) e =
          subst (Opened path a)
            (sym (
              >>=-err (call env env.get_storage) (λ _. opened) a
                (ap (λ r. (r.0, record a { world = r.1 })) e)))
            (refl, inr (refl, ap (λ r. r.0) e))
