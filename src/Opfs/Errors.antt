-- ===== src/Opfs/Errors.antt =====
-- What the operations of the OPFS backend throw.
use tactile.Base.{
  ℕ, false, ◌≡◌, refl, sym, ap, ◌∙◌, Option, some, none, List, [], ◌∷◌, Text, Result, ok, err,
  Failure, storage, plain, uri, dom, not_found_error, type_mismatch_error,
  no_modification_allowed_error, quota_exceeded_error, invalid_modification_error, other_error,
  arith,
}
use tactile.Paths.Refusal.{Refuses, normalize_path-Refuses, path_segments-Refuses}
use tactile.Paths.{normalize_path, path_segments}
use tactile.Storage.{Action, ◌>>=◌, lift, pure}
use tactile.Storage.Backend.{catch}
use tactile.Opfs.{
  FileSystem, Opfs, to_storage_error, translated, call, init, open_root, descend, descend_from_root,
  resolve_in, with_name, split_last, resolve_parent, resolve_file, translated_file_in, file_in,
  bytes_of, read_file,
}

-- No `DOMException` that has a `StorageError` in its place.
abbrev pub IsTranslated : Failure → Type 0
IsTranslated e = to_storage_error e ≡ e

IsTranslated-to_storage_error : (e : Failure) → IsTranslated (to_storage_error e)
unfolding to_storage_error
IsTranslated-to_storage_error (storage c) = refl
IsTranslated-to_storage_error plain = refl
IsTranslated-to_storage_error uri = refl
IsTranslated-to_storage_error (dom not_found_error) = refl
IsTranslated-to_storage_error (dom type_mismatch_error) = refl
IsTranslated-to_storage_error (dom no_modification_allowed_error) = refl
IsTranslated-to_storage_error (dom quota_exceeded_error) = refl
IsTranslated-to_storage_error (dom invalid_modification_error) = refl
IsTranslated-to_storage_error (dom other_error) = refl

-- An action opens no root (it is there and stays there), and what it throws is translated.
abbrev pub Translated : {S A : Type 0} → (S → Type 0) → Result A × S → Type 0
Translated Q (ok a, s) = Q s
Translated Q (err e, s) = Q s × IsTranslated e

Translated-bind :
    {S A B : Type 0} (Q : S → Type 0) (m : Action S A) (f : A → Action S B) (s : S)
    → Translated Q (m s)
    → ((a : A) (s' : S) → Q s' → Translated Q (f a s'))
    → Translated Q ((m >>= f) s)
Translated-bind {S} {A} {B} Q m f s h k = after (m s) h
  where
    after :
        (r : Result A × S)
        → Translated Q r
        → Translated {A = B} Q (elim (r.0) [ ok a ↦ f a r.1 | err e ↦ (err e, r.1) ])
    after (ok a, s') h = k a s' h
    after (err e, s') h = h

Translated-lift :
    {S A : Type 0} (Q : S → Type 0) (r : Result A) (s : S)
    → Refuses r
    → Q s
    → Translated Q (lift r s)
unfolding to_storage_error
Translated-lift Q (ok a) s h q = q
Translated-lift Q (err e) s h q = (q, ap to_storage_error h ∙ sym h)

module _ (fs : FileSystem) (root_name : Text) where
  -- The root is open.
  abbrev pub IsOpen : Opfs fs root_name → Type 0
  IsOpen s = (d : fs.DirHandle) × (s.root ≡ some d)

  -- A translated action whose calls keep the root.
  Translated-translated :
      {A : Type 0} (m : Action (Opfs fs root_name) A) (s : Opfs fs root_name)
      → IsOpen (m s).1
      → Translated IsOpen (translated m s)
  unfolding translated catch
  Translated-translated {A} m s h = after (m s) h
    where
      after :
          (r : Result A × Opfs fs root_name)
          → IsOpen r.1
          → Translated {A = A} IsOpen
              (elim (r.0) [ ok a ↦ (ok a, r.1) | err e ↦ (err (to_storage_error e), r.1) ])
      after (ok a, s') h = h
      after (err e, s') h = (h, IsTranslated-to_storage_error e)

  Translated-descend :
      (dir : fs.DirHandle) (segments : List Text) (s : Opfs fs root_name)
      → IsOpen s
      → Translated IsOpen (descend fs root_name dir segments s)
  unfolding descend
  Translated-descend dir [] s o = o
  Translated-descend dir (segment ∷ rest) s o =
      Translated-bind IsOpen
        (translated (call fs root_name (fs.get_directory_handle dir segment false)))
        (λ next. descend fs root_name next rest) s
        (Translated-translated (call fs root_name (fs.get_directory_handle dir segment false)) s
          (unfold call in o))
        (λ next s' o'. Translated-descend next rest s' o')

  Translated-descend_from_root :
      (segments : List Text) (s : Opfs fs root_name)
      → IsOpen s
      → Translated IsOpen (descend_from_root fs root_name segments s)
  unfolding descend_from_root init
  Translated-descend_from_root segments s (d, e) =
      Translated-bind IsOpen (init fs root_name) (λ root. descend fs root_name root segments) s
        (known s.root refl) (λ root s' o. Translated-descend root segments s' o)
    where
      known :
          (r : Option fs.DirHandle)
          → s.root ≡ r
          → Translated {A = fs.DirHandle} IsOpen
              (elim r [ some dir ↦ (ok dir, s) | none ↦ open_root fs root_name s ])
      known (some x) h = (x, h)
      known none h = cc (e, h)

  Translated-resolve_in :
      (segments : List Text) (s : Opfs fs root_name)
      → IsOpen s
      → Translated IsOpen (resolve_in fs root_name segments s)
  unfolding resolve_in with_name to_storage_error
  Translated-resolve_in [] s o = (o, refl)
  Translated-resolve_in (x ∷ rest) s o =
      Translated-bind IsOpen (descend_from_root fs root_name (split_last x rest).0)
        (with_name fs root_name (split_last x rest).1) s
        (Translated-descend_from_root (split_last x rest).0 s o) (λ d s' o'. o')

  Translated-resolve_parent :
      (path : Text) (s : Opfs fs root_name)
      → IsOpen s
      → Translated IsOpen (resolve_parent fs root_name path s)
  unfolding resolve_parent
  Translated-resolve_parent path s o =
      Translated-bind IsOpen (lift (normalize_path path))
        (λ n. lift (path_segments n) >>= resolve_in fs root_name) s
        (Translated-lift IsOpen (normalize_path path) s (normalize_path-Refuses path) o)
        λ n s' o'.
          Translated-bind IsOpen (lift (path_segments n)) (resolve_in fs root_name) s'
            (Translated-lift IsOpen (path_segments n) s' (path_segments-Refuses n) o')
            (λ segments s'' o''. Translated-resolve_in segments s'' o'')

  Translated-resolve_file :
      (path : Text) (s : Opfs fs root_name)
      → IsOpen s
      → Translated IsOpen (resolve_file fs root_name path s)
  unfolding resolve_file translated_file_in
  Translated-resolve_file path s o =
      Translated-bind IsOpen (lift (normalize_path path))
        (λ n. resolve_parent fs root_name n >>= translated_file_in fs root_name) s
        (Translated-lift IsOpen (normalize_path path) s (normalize_path-Refuses path) o)
        λ n s' o'.
          Translated-bind IsOpen (resolve_parent fs root_name n) (translated_file_in fs root_name)
            s' (Translated-resolve_parent n s' o')
            (λ at s'' o''.
              Translated-translated (file_in fs root_name false at) s''
                (unfold file_in call in o''))

  -- With the root open, reading a file leaves it open, and throws no `DOMException` that a
  -- `StorageError` stands for.
  pub Translated-read_file :
      (path : Text) (s : Opfs fs root_name)
      → IsOpen s
      → Translated IsOpen (read_file fs root_name path s)
  unfolding read_file bytes_of call
  Translated-read_file path s o =
      Translated-bind IsOpen (lift (normalize_path path))
        (λ n. resolve_file fs root_name n >>= bytes_of fs root_name) s
        (Translated-lift IsOpen (normalize_path path) s (normalize_path-Refuses path) o)
        λ n s' o'.
          Translated-bind IsOpen (resolve_file fs root_name n) (bytes_of fs root_name) s'
            (Translated-resolve_file n s' o')
            λ handle s'' o''.
              Translated-translated
                (call fs root_name (fs.get_file handle) >>= (λ (found : List ℕ × ℕ). pure found.0))
                s'' (read_keeps handle s'' o'')
    where
      read_keeps :
          (handle : fs.FileHandle) (s : Opfs fs root_name)
          → IsOpen s
          → IsOpen
              ((call fs root_name (fs.get_file handle) >>= (λ (found : List ℕ × ℕ). pure found.0))
                s).1
      read_keeps handle s o = ground arith
