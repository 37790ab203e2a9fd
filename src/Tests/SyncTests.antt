-- ===== src/Tests/SyncTests.antt =====
-- The theorems on packages/core/src/api/sync.ts with a relay that keeps its blobs in a list.
use tactile.Base.{
  ℕ, suc, zero, ◌≡◌, refl, inl, false, Option, some, none, List, [], ◌∷◌, ◌++◌, Text, codes, ok,
  lookup, drop, arith,
}
use tactile.IdbFs.Tree.{Holds}
use tactile.Sync.{
  Host, Pass, Context, RemoteFileEntry, SyncedEntry, LocalFile, sync_path, sync_paths, encrypt,
  decrypt,
}
use tactile.Sync.Entries.{Updated}
use tactile.Sync.Rounds.{sync_path-Updated}
use tactile.Sync.Loop.{Agrees, sync_paths-Agrees}
use tactile.Sync.Cipher.{decrypt-encrypt}

abbrev Blobs : Type 0
Blobs = List (List ℕ × List ℕ)

abbrev get_blob : List ℕ → Blobs → Option (List ℕ)
get_blob = lookup

abbrev zeros : ℕ → List ℕ
zeros zero = []
zeros (suc n) = 0 ∷ zeros n

abbrev host : Host
host = record {
  World = Blobs;
  mkdir = λ _ _ w. (ok tt, w);
  write_file = λ _ _ _ w. (ok tt, w);
  remove = λ _ _ w. (ok tt, w);
  get_blob = λ id w. (ok (get_blob id w), w);
  put_blob = λ id blob w. (ok tt, (id, blob) ∷ w);
  random_values = λ n w. (ok (zeros n), w);
  sha256 = λ bytes. bytes;
  seal = λ _ _ plaintext. 7 ∷ plaintext;
  open_sealed = λ _ _ sealed. ok (drop 1 sealed);
  bytes_to_base64 = λ bytes. bytes;
  base64_to_bytes = λ t. ok t;
  utf8_to_bytes = λ t. t;
}

abbrev context : Context host
context = record {
  collection = codes "/notes";
  key = codes "notes";
  enc_key = zeros 32;
  now = 100;
  iso = codes "2025-01-02T03:04:05.000Z";
}

abbrev rel : Text
rel = codes "a.md"

abbrev here : LocalFile
here = record {
  rel = rel;
  abs = codes "/notes/a.md";
  contents = 104 ∷ 105 ∷ [];
  hash = 1 ∷ [];
  size = 2;
  mtime = 90;
}

abbrev there : RemoteFileEntry
there = record { h = 2 ∷ []; m = 95; s = 3; b = 9 ∷ []; d = false }

abbrev start : Pass host
start = record {
  world = (9 ∷ [], zeros 24 ++ 7 ∷ 104 ∷ []) ∷ [];
  next_files = (rel, there) ∷ [];
  next_state = [];
  result = record {
    uploaded = 0;
    downloaded = 0;
    deleted_local = 0;
    deleted_remote = 0;
    conflicts = 0;
    skipped = 0;
    errors = [];
  };
}

sync_path-Updated_example :
    Updated host rel start (sync_path host context rel (some here) (some there) none start).1
sync_path-Updated_example = sync_path-Updated host context rel (some here) (some there) none start

nothing_yet : (x : Text) → Agrees host start x
unfolding lookup
nothing_yet x = inl refl

none_at_rel : lookup {A = SyncedEntry} rel [] ≡ none
unfolding lookup
none_at_rel = refl

sync_paths-Agrees_example :
    Agrees host
      (sync_paths host context ((rel, here) ∷ []) ((rel, there) ∷ []) [] (rel ∷ []) start)
      rel
sync_paths-Agrees_example =
    sync_paths-Agrees host context ((rel, here) ∷ []) ((rel, there) ∷ []) [] (rel ∷ []) start
      (tt, tt) (none_at_rel, tt) nothing_yet rel

decrypt-encrypt_example :
    Holds
      (λ blob _. decrypt host (zeros 32) blob ≡ ok (104 ∷ []))
      (λ _ _. ⊥)
      (encrypt host (zeros 32) (104 ∷ []) [])
decrypt-encrypt_example =
    decrypt-encrypt host (zeros 32) (104 ∷ []) (zeros 24) [] [] refl (omega arith) refl
