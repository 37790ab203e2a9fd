-- ===== src/Sync.antt =====
-- packages/core/src/api/sync.ts: the reconciliation of a collection with the relay.
--
-- The storage backend, the relay client, the random source and the ciphers are the parameter `Host`.
-- A pass runs in the state `Pass`: the host's world, the next manifest and local state, and the
-- counters. The objects that are indexed by a path are association lists: a path that is a name of
-- `Object.prototype`, such as `constructor`, is not modelled.
pub mod Entries
pub mod Rounds
pub mod Loop
pub mod Cipher
pub mod Blobs
use tactile.Base.{
  ℕ, zero, suc, ◌+◌, Bool, true, false, not, ◌&&◌, ◌||◌, Option, some, none, List, [], ◌∷◌, ◌++◌,
  Text, codes, text_eq, ok, err, Failure, plain, Result, take, drop, length, ltb, ◌==◌,
  if◌then◌else◌, map, lookup, assign, erase, any,
}
use tactile.Paths.{join_path, parent_path, last_index_of}
use tactile.Storage.{Action, ◌>>=◌, ◌>>◌, pure, throw, lift, BackendOptions, ChangeOrigin, sync}

-- One manifest entry: hash, time, size, blob id, and whether it is a tombstone.
pub record RemoteFileEntry : Type 0 where
  pub h : Text
  pub m : ℕ
  pub s : ℕ
  pub b : Text
  pub d : Bool

-- What the local state keeps of a path.
pub record SyncedEntry : Type 0 where
  pub h : Text
  pub b : Text

pub record LocalFile : Type 0 where
  pub rel : Text
  pub abs : Text
  pub contents : List ℕ
  pub hash : List ℕ
  pub size : ℕ
  pub mtime : ℕ

pub record SyncResult : Type 0 where
  pub uploaded : ℕ
  pub downloaded : ℕ
  pub deleted_local : ℕ
  pub deleted_remote : ℕ
  pub conflicts : ℕ
  pub skipped : ℕ
  pub errors : List (Text × Failure)

-- The code that the engine calls: storage, relay, random bytes, SHA-256, XChaCha20-Poly1305, the
-- base64 codec and `TextEncoder`.
pub record Host : Type 1 where
  pub World : Type 0
  pub mkdir : Text → BackendOptions → Action World (Unit {0})
  pub write_file : Text → List ℕ → BackendOptions → Action World (Unit {0})
  pub remove : Text → BackendOptions → Action World (Unit {0})
  pub get_blob : List ℕ → Action World (Option (List ℕ))
  pub put_blob : List ℕ → List ℕ → Action World (Unit {0})
  pub random_values : ℕ → Action World (List ℕ)
  pub sha256 : List ℕ → List ℕ
  -- The cipher for a key and a nonce.
  pub seal : List ℕ → List ℕ → List ℕ → List ℕ
  pub open_sealed : List ℕ → List ℕ → List ℕ → Result (List ℕ)
  pub bytes_to_base64 : List ℕ → Text
  pub base64_to_bytes : Text → Result (List ℕ)
  pub utf8_to_bytes : Text → List ℕ

-- 30 days.
abbrev pub tombstone_prune_ms : ℕ
tombstone_prune_ms = 2592000000

abbrev pub nonce_len : ℕ
nonce_len = 24

abbrev pub with_origin_sync : Bool → BackendOptions
with_origin_sync recursive = record {
  keep_version = none;
  recursive = recursive;
  origin = some sync;
}

-- `conflictPath`, given `now.toISOString()`.
unfoldable pub replace_first : ℕ → ℕ → Text → Text
replace_first c by [] = []
replace_first c by (x ∷ xs) =
    let rest = replace_first c by xs in if x == c then by ∷ xs else x ∷ rest

unfoldable pub stamp : Text → Text
unfolding replace_first
stamp iso = map (λ c. if c == b':' then b'-' else c) (take 19 (replace_first b'T' b' ' iso))

abbrev pub behind : Option ℕ → Option ℕ → Bool
behind none _ = false
behind (some i) none = true
behind (some i) (some j) = ltb j i

unfoldable pub conflict_path : Text → Text → Text
unfolding stamp last_index_of
conflict_path rel iso =
    let mark = codes " (conflict " ++ stamp iso ++ codes ")" in
    let dot = last_index_of b'.' rel in
    elim dot [
      | none ↦ rel ++ mark
      | some i ↦
          if behind (some i) (last_index_of b'/' rel)
          then take i rel ++ mark ++ drop i rel
          else rel ++ mark
    ]

module _ (host : Host) where
  unfoldable pub encrypt : List ℕ → List ℕ → Action host.World (List ℕ)
  encrypt key plaintext = do
    nonce ← host.random_values nonce_len
    pure (nonce ++ host.seal key nonce plaintext)

  unfoldable pub decrypt : List ℕ → List ℕ → Result (List ℕ)
  decrypt key blob = host.open_sealed key (take nonce_len blob) (drop nonce_len blob)

  unfoldable pub file_blob_id : Text → Text → List ℕ → List ℕ
  file_blob_id key rel hash = host.sha256 (
      host.utf8_to_bytes (codes "tactile-sync/file/v1")
      ++ (host.utf8_to_bytes key ++ 0 ∷ (host.utf8_to_bytes rel ++ 0 ∷ hash)))

  pub record Pass : Type 0 where
    pub world : host.World
    pub next_files : List (Text × RemoteFileEntry)
    pub next_state : List (Text × SyncedEntry)
    pub result : SyncResult

  -- A call of the host.
  unfoldable pub run : {A : Type 0} → Action host.World A → Action Pass A
  run m p = let (r, w) = m p.world in (r, record p { world = w })

  unfoldable pub count : (SyncResult → SyncResult) → Action Pass (Unit {0})
  count f p = (ok tt, record p { result = f p.result })

  -- `nextFiles[rel] = e`
  unfoldable pub set_file : Text → RemoteFileEntry → Action Pass (Unit {0})
  unfolding assign
  set_file rel e p = (ok tt, record p { next_files = assign rel e p.next_files })

  unfoldable pub delete_file : Text → Action Pass (Unit {0})
  unfolding erase
  delete_file rel p = (ok tt, record p { next_files = erase rel p.next_files })

  -- `nextFiles[rel] = e; nextState.files[rel] = { h: e.h, b: e.b }`
  unfoldable pub set_both : Text → RemoteFileEntry → Action Pass (Unit {0})
  unfolding assign
  set_both rel e p = (
    ok tt,
    record p {
      next_files = assign rel e p.next_files;
      next_state = assign rel (record { h = e.h; b = e.b }) p.next_state;
    },
  )

  -- What `syncNow` fixes before the loop: the collection and its key, the encryption key, and the
  -- time with its ISO form.
  pub record Context : Type 0 where
    pub collection : Text
    pub key : Text
    pub enc_key : List ℕ
    pub now : ℕ
    pub iso : Text

  unfoldable pub upload : Context → LocalFile → Action Pass RemoteFileEntry
  unfolding file_blob_id run encrypt count
  upload c l = do
    let id = file_blob_id c.key l.rel l.hash
    sealed ← run (encrypt c.enc_key l.contents)
    run (host.put_blob id sealed)
    count (λ r. record r { uploaded = suc r.uploaded })
    pure (record {
      h = host.bytes_to_base64 l.hash;
      m = if l.mtime == 0 then c.now else l.mtime;
      s = l.size;
      b = host.bytes_to_base64 id;
      d = false;
    })

  unfoldable pub some_blob : Option (List ℕ) → Action Pass (List ℕ)
  some_blob none = throw plain
  some_blob (some blob) = pure blob

  unfoldable pub download : Context → RemoteFileEntry → Text → Action Pass (Unit {0})
  unfolding run some_blob join_path parent_path decrypt count
  download c r rel = do
    id ← lift (host.base64_to_bytes r.b)
    found ← run (host.get_blob id)
    blob ← some_blob found
    abs ← lift (join_path (c.collection ∷ rel ∷ []))
    parent ← lift (parent_path abs)
    run (host.mkdir parent (with_origin_sync true))
    plaintext ← lift (decrypt c.enc_key blob)
    run (host.write_file abs plaintext (with_origin_sync false))
    count (λ r. record r { downloaded = suc r.downloaded })

  -- `!s || s.h !== h`
  abbrev pub differs : Option SyncedEntry → Text → Bool
  differs none h = true
  differs (some s) h = not (text_eq s.h h)

  unfoldable pub upload_both : Context → Text → LocalFile → Action Pass (Unit {0})
  unfolding upload set_both
  upload_both c rel l = do e ← upload c l; set_both rel e

  unfoldable pub download_both : Context → Text → RemoteFileEntry → Action Pass (Unit {0})
  unfolding download set_both
  download_both c rel r = do download c r rel; set_both rel r

  unfoldable pub save_copy : Context → Text → LocalFile → Action Pass (Unit {0})
  unfolding run join_path parent_path conflict_path
  save_copy c rel l = do
    copy ← lift (join_path (c.collection ∷ conflict_path rel c.iso ∷ []))
    parent ← lift (parent_path copy)
    run (host.mkdir parent (with_origin_sync true))
    run (host.write_file copy l.contents (with_origin_sync false))

  -- The remote side is newer: the local edits are kept in a conflict copy.
  unfoldable pub keep_both : Context → Text → LocalFile → RemoteFileEntry → Action Pass (Unit {0})
  unfolding save_copy download_both
  keep_both c rel l r = do save_copy c rel l; download_both c rel r

  unfoldable pub resolve_conflict :
      Context → Text → LocalFile → RemoteFileEntry → Action Pass (Unit {0})
  unfolding count keep_both upload_both
  resolve_conflict c rel l r = do
    count (λ x. record x { conflicts = suc x.conflicts })
    (if ltb l.mtime r.m then keep_both c rel l r else upload_both c rel l)

  -- The file is on both sides: `l && r && !r.d`.
  unfoldable pub sync_both :
      Context → Text → LocalFile → RemoteFileEntry → Option SyncedEntry → Action Pass (Unit {0})
  unfolding set_both upload_both download_both resolve_conflict count
  sync_both c rel l r s =
      let lh = host.bytes_to_base64 l.hash in
      if text_eq lh r.h
      then set_both rel r
      else if differs s lh && not (differs s r.h)
      then upload_both c rel l
      else if differs s r.h && not (differs s lh)
      then download_both c rel r
      else if differs s lh && differs s r.h
      then resolve_conflict c rel l r
      else do count (λ x. record x { skipped = suc x.skipped }); set_both rel r

  unfoldable pub delete_local : Text → LocalFile → RemoteFileEntry → Action Pass (Unit {0})
  unfolding run set_file count
  delete_local rel l r = do
    run (host.remove l.abs (with_origin_sync false))
    set_file rel r
    count (λ x. record x { deleted_local = suc x.deleted_local })

  -- The file is here only, and the manifest has a tombstone.
  unfoldable pub sync_tombstone :
      Context → Text → LocalFile → RemoteFileEntry → Option SyncedEntry → Action Pass (Unit {0})
  unfolding delete_local upload_both
  sync_tombstone c rel l r s =
      if differs s (host.bytes_to_base64 l.hash) then upload_both c rel l else delete_local rel l r

  -- The file is in the manifest only: `!l && r && !r.d`.
  unfoldable pub sync_remote :
      Context → Text → RemoteFileEntry → Option SyncedEntry → Action Pass (Unit {0})
  unfolding set_file count download_both
  sync_remote c rel r s = if differs s r.h then download_both c rel r else do
    set_file rel (record r { d = true; m = c.now })
    count (λ x. record x { deleted_remote = suc x.deleted_remote })

  -- A tombstone without a file.
  unfoldable pub prune : Context → Text → RemoteFileEntry → Action Pass (Unit {0})
  unfolding delete_file set_file
  prune c rel r = if ltb (r.m + tombstone_prune_ms) c.now then delete_file rel else set_file rel r

  -- The body of the `try` in the loop of `syncNow`.
  unfoldable pub sync_path :
      Context
      → Text
      → Option LocalFile
      → Option RemoteFileEntry
      → Option SyncedEntry
      → Action Pass (Unit {0})
  unfolding sync_both sync_tombstone sync_remote prune upload_both
  sync_path c rel (some l) (some r) s =
      if r.d then sync_tombstone c rel l r s else sync_both c rel l r s
  sync_path c rel (some l) none s = upload_both c rel l
  sync_path c rel none (some r) s = if r.d then prune c rel r else sync_remote c rel r s
  sync_path c rel none none s = pure tt

  -- The `catch`: what was thrown is noted, and the loop goes on.
  unfoldable pub note_error : Text → Result (Unit {0}) × Pass → Pass
  note_error rel (ok _, p) = p
  note_error rel (err e, p) = record p {
    result = record p.result { errors = p.result.errors ++ (rel, e) ∷ [] };
  }

  unfoldable pub sync_paths :
      Context
      → List (Text × LocalFile)
      → List (Text × RemoteFileEntry)
      → List (Text × SyncedEntry)
      → List Text
      → Pass
      → Pass
  unfolding sync_path note_error lookup
  sync_paths c locals remote state [] p = p
  sync_paths c locals remote state (rel ∷ paths) p = sync_paths c locals remote state paths (
      note_error rel (sync_path c rel (lookup rel locals) (lookup rel remote) (lookup rel state) p))

-- `staleBlobIds` without those that the new manifest names: the blobs to delete.
unfoldable pub is_live : List (Text × RemoteFileEntry) → Text → Bool
is_live files id = any (λ e. text_eq e.1.b id) files

unfoldable pub stale_blobs : List (Text × RemoteFileEntry) → List Text → List Text
unfolding is_live
stale_blobs next_files [] = []
stale_blobs next_files (id ∷ ids) =
    let rest = stale_blobs next_files ids in if is_live next_files id then rest else id ∷ rest
