-- ===== src/Sync/Rounds.antt =====
-- The rounds of the loop of `syncNow`, on every combination of what the sides have.
use tactile.Base.{
  Bool, true, false, not, ◌&&◌, ◌≡◌, refl, inl, inr, Option, some, none, Text, text_eq, Result, ok,
  err, Bool-cases, if◌then◌else◌, ltb, suc, ◌+◌,
}
use tactile.Storage.{◌>>◌}
use tactile.Sync.{
  Host, Pass, Context, RemoteFileEntry, SyncedEntry, LocalFile, run, count, set_file, set_both,
  save_copy, keep_both, upload_both, download_both, resolve_conflict, sync_both, delete_local,
  sync_tombstone, sync_remote, prune, sync_path, differs, with_origin_sync,
}
use tactile.Sync.Entries.{
  Updated, Updated-Same, Same-save_copy, seq, Updated-after-Same, Updated-set_both,
  Updated-set_file, Updated-delete_file, Updated-upload_both, Updated-download_both,
}

module _ (host : Host) where
  Updated-keep_both :
      (c : Context host) (rel : Text) (l : LocalFile) (r : RemoteFileEntry) (p : Pass host)
      → r.d ≡ false
      → Updated host rel p (keep_both host c rel l r p).1
  unfolding keep_both
  Updated-keep_both c rel l r p live =
      let kept = Same-save_copy host c rel l p in
      seq host (Updated host rel p) (save_copy host c rel l) (λ _. download_both host c rel r) p
        (Updated-Same host rel p (save_copy host c rel l p).1 kept)
        λ _ q h.
          Updated-after-Same host rel p q (download_both host c rel r q).1 (rw h at kept)
            (Updated-download_both host c rel r q live)

  Updated-resolve_conflict :
      (c : Context host) (rel : Text) (l : LocalFile) (r : RemoteFileEntry) (p : Pass host)
      → r.d ≡ false
      → Updated host rel p (resolve_conflict host c rel l r p).1
  unfolding resolve_conflict count
  Updated-resolve_conflict c rel l r p live =
      let q : Pass host = (count host (λ x. record x { conflicts = suc x.conflicts }) p).1 in
      Updated-after-Same host rel p q _ (refl, refl) (branch q (ltb l.mtime r.m))
    where
      branch :
          (q : Pass host) (newer : Bool)
          → Updated host rel q
              ((if newer then keep_both host c rel l r else upload_both host c rel l) q).1
      branch q true = Updated-keep_both c rel l r q live
      branch q false = Updated-upload_both host c rel l q

  Updated-sync_both :
      (c : Context host) (rel : Text) (l : LocalFile) (r : RemoteFileEntry) (s : Option SyncedEntry)
      (p : Pass host)
      → r.d ≡ false
      → Updated host rel p (sync_both host c rel l r s p).1
  unfolding sync_both count
  Updated-sync_both c rel l r s p live =
      let lh = host.bytes_to_base64 l.hash in
      branch (text_eq lh r.h) (differs host s lh) (differs host s r.h)
    where
      branch :
          (same mine theirs : Bool)
          → Updated host rel p
              ((if same
                  then set_both host rel r
                  else if mine && not theirs
                  then upload_both host c rel l
                  else if theirs && not mine
                  then download_both host c rel r
                  else if mine && theirs
                  then resolve_conflict host c rel l r
                  else (count host (λ x. record x { skipped = suc x.skipped })
                      >> set_both host rel r))
                p).1
      branch true mine theirs = Updated-set_both host rel r p live
      branch false true false = Updated-upload_both host c rel l p
      branch false false true = Updated-download_both host c rel r p live
      branch false true true = Updated-resolve_conflict c rel l r p live
      branch false false false =
          let q : Pass host = (count host (λ x. record x { skipped = suc x.skipped }) p).1 in
          Updated-after-Same host rel p q _ (refl, refl) (Updated-set_both host rel r q live)

  Updated-delete_local :
      (rel : Text) (l : LocalFile) (r : RemoteFileEntry) (p : Pass host)
      → Updated host rel p (delete_local host rel l r p).1
  unfolding delete_local run set_file count
  Updated-delete_local rel l r p = removed (host.remove l.abs (with_origin_sync false) p.world)
    where
      removed :
          (m : Result (Unit {0}) × host.World)
          → Updated host rel p
              (let x : Result (Unit {0}) × Pass host = elim (m.0) [
                | ok _ ↦
                    (set_file host rel r
                        >> count host (λ x. record x { deleted_local = suc x.deleted_local }))
                      (record p { world = m.1 })
                | err e ↦ (err e, record p { world = m.1 })
              ] in
                x).1
      removed (err e, w) = Updated-Same host rel p (record p { world = w }) (refl, refl)
      removed (ok _, w) =
          let q : Pass host = record p { world = w } in
          let u = Updated-set_file host rel r q in
          record { others = u.others; recorded = u.recorded }

  Updated-sync_tombstone :
      (c : Context host) (rel : Text) (l : LocalFile) (r : RemoteFileEntry) (s : Option SyncedEntry)
      (p : Pass host)
      → Updated host rel p (sync_tombstone host c rel l r s p).1
  unfolding sync_tombstone
  Updated-sync_tombstone c rel l r s p =
      elim (Bool-cases (differs host s (host.bytes_to_base64 l.hash))) [
        | inl d ↦ rw d (Updated-upload_both host c rel l p)
        | inr d ↦ rw d (Updated-delete_local rel l r p)
      ]

  Updated-prune :
      (c : Context host) (rel : Text) (r : RemoteFileEntry) (p : Pass host)
      → Updated host rel p (prune host c rel r p).1
  unfolding prune
  Updated-prune c rel r p = elim (Bool-cases (ltb (r.m + 2592000000) c.now)) [
    | inl d ↦ rw d (Updated-delete_file host rel p)
    | inr d ↦ rw d (Updated-set_file host rel r p)
  ]

  Updated-sync_remote :
      (c : Context host) (rel : Text) (r : RemoteFileEntry) (s : Option SyncedEntry) (p : Pass host)
      → r.d ≡ false
      → Updated host rel p (sync_remote host c rel r s p).1
  unfolding sync_remote set_file count
  Updated-sync_remote c rel r s p live = elim (Bool-cases (differs host s r.h)) [
    | inl d ↦ rw d (Updated-download_both host c rel r p live)
    | inr d ↦ rw d (
        let u = Updated-set_file host rel (record r { d = true; m = c.now }) p in
        record { others = u.others; recorded = u.recorded })
  ]

  -- Whatever a round does, and wherever it throws: the entries of every other path stay in the next
  -- manifest and in the next local state, and the local state of its own path stays, or repeats the
  -- hash and the blob of a live entry of the next manifest.
  pub sync_path-Updated :
      (c : Context host) (rel : Text) (l : Option LocalFile) (r : Option RemoteFileEntry)
      (s : Option SyncedEntry) (p : Pass host)
      → Updated host rel p (sync_path host c rel l r s p).1
  unfolding sync_path
  sync_path-Updated c rel (some l) (some r) s p = by_flag r.d refl
    where
      by_flag :
          (d : Bool)
          → r.d ≡ d
          → Updated host rel p
              ((if d then sync_tombstone host c rel l r s else sync_both host c rel l r s) p).1
      by_flag true e = Updated-sync_tombstone c rel l r s p
      by_flag false e = Updated-sync_both c rel l r s p e
  sync_path-Updated c rel (some l) none s p = Updated-upload_both host c rel l p
  sync_path-Updated c rel none (some r) s p = by_flag r.d refl
    where
      by_flag :
          (d : Bool)
          → r.d ≡ d
          → Updated host rel p ((if d then prune host c rel r else sync_remote host c rel r s) p).1
      by_flag true e = Updated-prune c rel r p
      by_flag false e = Updated-sync_remote c rel r s p e
  sync_path-Updated c rel none none s p = Updated-Same host rel p p (refl, refl)
