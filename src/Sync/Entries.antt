-- ===== src/Sync/Entries.antt =====
-- A round of the loop of `syncNow` touches the entries of its own path only, and what it records in
-- the local state is what the new manifest has.
use tactile.Base.{
  false, ◌≡◌, refl, ap, ◌∙◌, ◌⊎◌, inl, inr, some, Text, text_eq, text_eq_refl, Result, ok, err,
  lookup, lookup-assign, lookup-erase, arith,
}
use tactile.Storage.{Action, ◌>>=◌}
use tactile.Sync.{
  encrypt, Host, Pass, Context, RemoteFileEntry, LocalFile, run, count, set_file, delete_file,
  set_both, upload, some_blob, save_copy, download, upload_both, download_both,
}

module _ (host : Host) where
  -- Neither the next manifest nor the next state has changed.
  abbrev pub Same : Pass host → Pass host → Type 0
  Same p q = (q.next_files ≡ p.next_files) × (q.next_state ≡ p.next_state)

  -- The state's entry of the path is the old one, or repeats a live entry of the manifest.
  abbrev pub Recorded : Text → Pass host → Pass host → Type 0
  Recorded rel p q =
      (lookup rel q.next_state ≡ lookup rel p.next_state)
      ⊎ ((e : RemoteFileEntry) × (lookup rel q.next_files ≡ some e)
          × (e.d ≡ false)
          × (lookup rel q.next_state ≡ some (record { h = e.h; b = e.b })))

  -- Every path but `rel` has the entries that it had.
  abbrev pub Others : Text → Pass host → Pass host → Type 0
  Others rel p q =
      (x : Text)
      → text_eq rel x ≡ false
      → (lookup x q.next_files ≡ lookup x p.next_files)
        × (lookup x q.next_state ≡ lookup x p.next_state)

  pub record Updated (rel : Text) (p q : Pass host) : Type 0 where
    pub others : Others rel p q
    pub recorded : Recorded rel p q

  pub Updated-Same : (rel : Text) (p q : Pass host) → Same p q → Updated rel p q
  Updated-Same rel p q h = record {
    others = λ x e. (ap (lookup x) h.0, ap (lookup x) h.1);
    recorded = inl (ap (lookup rel) h.1);
  }

  Same-upload : (c : Context host) (l : LocalFile) (p : Pass host) → Same p (upload host c l p).1
  unfolding upload run encrypt count
  Same-upload c l p = (ground arith, ground arith)

  upload-live :
      (c : Context host) (l : LocalFile) (p q : Pass host) (e : RemoteFileEntry)
      → upload host c l p ≡ (ok e, q)
      → e.d ≡ false
  unfolding upload run encrypt count
  upload-live c l p q e h = ground arith

  Same-download :
      (c : Context host) (r : RemoteFileEntry) (rel : Text) (p : Pass host)
      → Same p (download host c r rel p).1
  unfolding download run some_blob count
  Same-download c r rel p = (ground arith, ground arith)

  pub Same-save_copy :
      (c : Context host) (rel : Text) (l : LocalFile) (p : Pass host)
      → Same p (save_copy host c rel l p).1
  unfolding save_copy run
  Same-save_copy c rel l p = (ground arith, ground arith)

  -- A step and what follows it: a property of the state that is left, thrown or not.
  pub seq :
      {A B : Type 0} (P : Pass host → Type 0) (m : Action (Pass host) A)
      (f : A → Action (Pass host) B) (p : Pass host)
      → P (m p).1
      → ((a : A) (q : Pass host) → m p ≡ (ok a, q) → P (f a q).1)
      → P ((m >>= f) p).1
  seq {A} {B} P m f p h k = after (m p) refl h
    where
      after :
          (r : Result A × Pass host)
          → m p ≡ r
          → P r.1
          → P
              (let x : Result B × Pass host = elim (r.0) [
                | ok a ↦ f a r.1
                | err e ↦ (err e, r.1)
              ] in
                x).1
      after (ok a, q) e h = k a q e
      after (err x, q) e h = h

  pub Updated-after-Same :
      (rel : Text) (p q r : Pass host) → Same p q → Updated rel q r → Updated rel p r
  Updated-after-Same rel p q r same u = record {
    others =
        λ x e. ((u.others x e).0 ∙ ap (lookup x) same.0, (u.others x e).1 ∙ ap (lookup x) same.1);
    recorded = again u.recorded;
  }
    where
      again : Recorded rel q r → Recorded rel p r
      again (inl e) = inl (e ∙ ap (lookup rel) same.1)
      again (inr h) = inr h

  pub Updated-set_both :
      (rel : Text) (e : RemoteFileEntry) (p : Pass host)
      → e.d ≡ false
      → Updated rel p (set_both host rel e p).1
  unfolding set_both
  Updated-set_both rel e p live = record {
    others = λ x h. (
      lookup-assign rel x e p.next_files ∙ rw h refl,
      lookup-assign rel x (record { h = e.h; b = e.b }) p.next_state ∙ rw h refl,
    );
    recorded = inr (
      e,
      lookup-assign rel rel e p.next_files ∙ rw (text_eq_refl rel) refl,
      live,
      lookup-assign rel rel (record { h = e.h; b = e.b }) p.next_state ∙ rw (text_eq_refl rel) refl,
    );
  }

  pub Updated-set_file :
      (rel : Text) (e : RemoteFileEntry) (p : Pass host) → Updated rel p (set_file host rel e p).1
  unfolding set_file
  Updated-set_file rel e p = record {
    others = λ x h. (lookup-assign rel x e p.next_files ∙ rw h refl, refl);
    recorded = inl refl;
  }

  pub Updated-delete_file : (rel : Text) (p : Pass host) → Updated rel p (delete_file host rel p).1
  unfolding delete_file
  Updated-delete_file rel p = record {
    others = λ x h. (lookup-erase rel x p.next_files ∙ rw h refl, refl);
    recorded = inl refl;
  }

  pub Updated-upload_both :
      (c : Context host) (rel : Text) (l : LocalFile) (p : Pass host)
      → Updated rel p (upload_both host c rel l p).1
  unfolding upload_both
  Updated-upload_both c rel l p =
      let kept = Same-upload c l p in
      seq (Updated rel p) (upload host c l) (set_both host rel) p
        (Updated-Same rel p (upload host c l p).1 kept)
        λ e q h.
          Updated-after-Same rel p q (set_both host rel e q).1 (rw h at kept)
            (Updated-set_both rel e q (upload-live c l p q e h))

  pub Updated-download_both :
      (c : Context host) (rel : Text) (r : RemoteFileEntry) (p : Pass host)
      → r.d ≡ false
      → Updated rel p (download_both host c rel r p).1
  unfolding download_both
  Updated-download_both c rel r p live =
      let kept = Same-download c r rel p in
      seq (Updated rel p) (download host c r rel) (λ _. set_both host rel r) p
        (Updated-Same rel p (download host c r rel p).1 kept)
        λ _ q h.
          Updated-after-Same rel p q (set_both host rel r q).1 (rw h at kept)
            (Updated-set_both rel r q live)
