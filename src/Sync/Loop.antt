-- ===== src/Sync/Loop.antt =====
-- The loop of `syncNow`: the local state that it leaves agrees with the manifest that it publishes.
use tactile.Base.{
  false, ◌≡◌, ◌∙◌, ◌⊎◌, inl, inr, some, none, List, [], ◌∷◌, Text, text_eq, text_eq_iff, Result, ok,
  err, Bool-cases, All, AllDistinct, lookup,
}
use tactile.Sync.{
  Host, Pass, Context, RemoteFileEntry, SyncedEntry, LocalFile, sync_path, note_error, sync_paths,
}
use tactile.Sync.Entries.{Updated}
use tactile.Sync.Rounds.{sync_path-Updated}

module _ (host : Host) where
  -- The next local state has nothing at the path, or the hash and the blob of a live entry of the
  -- next manifest.
  abbrev pub Agrees : Pass host → Text → Type 0
  Agrees p x =
      (lookup x p.next_state ≡ none)
      ⊎ ((e : RemoteFileEntry) × (lookup x p.next_files ≡ some e)
          × (e.d ≡ false)
          × (lookup x p.next_state ≡ some (record { h = e.h; b = e.b })))

  Updated-note_error :
      (rel : Text) (p : Pass host) (r : Result (Unit {0}) × Pass host)
      → Updated host rel p r.1
      → Updated host rel p (note_error host rel r)
  unfolding note_error
  Updated-note_error rel p (ok _, q) u = u
  Updated-note_error rel p (err e, q) u = record { others = u.others; recorded = u.recorded }

  Agrees-Updated :
      (rel : Text) (p q : Pass host)
      → Updated host rel p q
      → lookup rel p.next_state ≡ none
      → ((x : Text) → Agrees p x)
      → (x : Text) → Agrees q x
  Agrees-Updated rel p q u fresh h x = elim (Bool-cases (text_eq rel x)) [
    | inl e ↦ rw (← (text_eq_iff rel x).0 e) (own u.recorded)
    | inr e ↦ other e (h x)
  ]
    where
      own :
          (lookup rel q.next_state ≡ lookup rel p.next_state)
            ⊎ ((e : RemoteFileEntry) × (lookup rel q.next_files ≡ some e)
                × (e.d ≡ false)
                × (lookup rel q.next_state ≡ some (record { h = e.h; b = e.b })))
          → Agrees q rel
      own (inl same) = inl (same ∙ fresh)
      own (inr live) = inr live

      other : text_eq rel x ≡ false → Agrees p x → Agrees q x
      other e (inl none_there) = inl ((u.others x e).1 ∙ none_there)
      other e (inr (r, found, live, kept)) =
          inr (r, (u.others x e).0 ∙ found, live, (u.others x e).1 ∙ kept)

  still_fresh :
      (rel : Text) (p q : Pass host) (paths : List Text)
      → Updated host rel p q
      → All (λ y. text_eq rel y ≡ false) paths
      → All (λ y. lookup y p.next_state ≡ none) paths
      → All (λ y. lookup y q.next_state ≡ none) paths
  still_fresh rel p q [] u d f = tt
  still_fresh rel p q (y ∷ paths) u d f =
      ((u.others y d.0).1 ∙ f.0, still_fresh rel p q paths u d.1 f.1)

  -- If the loop goes over distinct paths that have no entry in the next state yet, and the next state
  -- agrees with the next manifest before it, the two agree after it, whatever rounds threw.
  pub sync_paths-Agrees :
      (c : Context host) (locals : List (Text × LocalFile)) (remote : List (Text × RemoteFileEntry))
      (state : List (Text × SyncedEntry)) (paths : List Text) (p : Pass host)
      → AllDistinct paths
      → All (λ y. lookup y p.next_state ≡ none) paths
      → ((x : Text) → Agrees p x)
      → (x : Text) → Agrees (sync_paths host c locals remote state paths p) x
  unfolding sync_paths
  sync_paths-Agrees c locals remote state [] p distinct fresh agrees = agrees
  sync_paths-Agrees c locals remote state (rel ∷ paths) p distinct fresh agrees =
      let round =
        sync_path host c rel (lookup rel locals) (lookup rel remote) (lookup rel state) p in
      let u = Updated-note_error rel p round (
        sync_path-Updated host c rel (lookup rel locals) (lookup rel remote) (lookup rel state)
          p) in
      sync_paths-Agrees c locals remote state paths (note_error host rel round) distinct.1
        (still_fresh rel p (note_error host rel round) paths u distinct.0 fresh.1)
        (Agrees-Updated rel p (note_error host rel round) u fresh.0 agrees)
