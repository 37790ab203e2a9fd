-- ===== src/Storage/Backend.antt =====
-- packages/storage/src/types.ts: `StorageBackend`, the interface that the backends implement, the
-- wrappers wrap and the application calls.
use tactile.Base.{◌≡◌, ap, ℕ, Bool, some, none, List, Text, ok, err, Failure, Result, true, false}
use tactile.Storage.{Action, DirEntry, FileStat, BackendOptions, ◌>>=◌}

pub record Backend : Type 1 where
  pub World : Type 0
  pub read_dir : Text → Action World (List DirEntry)
  pub read_text_file : Text → Action World Text
  pub read_file : Text → Action World (List ℕ)
  pub write_text_file : Text → Text → BackendOptions → Action World (Unit {0})
  pub write_file : Text → List ℕ → BackendOptions → Action World (Unit {0})
  pub mkdir : Text → BackendOptions → Action World (Unit {0})
  pub rename : Text → Text → BackendOptions → Action World (Unit {0})
  pub remove : Text → BackendOptions → Action World (Unit {0})
  pub stat : Text → Action World FileStat
  pub exists : Text → Action World Bool

-- A call without options, and with `{ recursive: true }`.
abbrev pub no_options : BackendOptions
no_options = record { keep_version = none; recursive = false; origin = none }

abbrev pub recursively : BackendOptions
recursively = record { keep_version = none; recursive = true; origin = none }

-- `{ keepVersion: false }`
abbrev pub no_version : BackendOptions
no_version = record { keep_version = some false; recursive = false; origin = none }

-- `try { … } catch { … }`: what is done with a failure, in the state that it leaves.
unfoldable pub catch : {S A : Type 0} → Action S A → (Failure → Action S A) → Action S A
catch m f s = let (r, s') = m s in elim r [ ok a ↦ (ok a, s') | err e ↦ f e s' ]

-- An action keeps a property of the state, whether or not it throws.
abbrev pub Keeps : {S A : Type 0} → (S → Type 0) → Action S A → Type 0
Keeps {S} P m = (s : S) → P s → P (m s).1

pub Keeps-bind :
    {S A B : Type 0} (P : S → Type 0) (m : Action S A) (f : A → Action S B)
    → Keeps P m
    → ((a : A) → Keeps P (f a))
    → Keeps P (m >>= f)
Keeps-bind {S} {A} {B} P m f h k s p = after (m s) (h s p)
  where
    after :
        (r : Result A × S)
        → P r.1
        → P (let x : Result B × S = elim (r.0) [ ok a ↦ f a r.1 | err e ↦ (err e, r.1) ] in x).1
    after (ok a, s') q = k a s' q
    after (err e, s') q = q

pub Keeps-catch :
    {S A : Type 0} (P : S → Type 0) (m : Action S A) (f : Failure → Action S A)
    → Keeps P m
    → ((e : Failure) → Keeps P (f e))
    → Keeps P (catch m f)
unfolding catch
Keeps-catch {S} {A} P m f h k s p = after (m s) (h s p)
  where
    after :
        (r : Result A × S)
        → P r.1
        → P (let x : Result A × S = elim (r.0) [ ok a ↦ (ok a, r.1) | err e ↦ f e r.1 ] in x).1
    after (ok a, s') q = q
    after (err e, s') q = k e s' q

pub catch-ok :
    {S A : Type 0} (m : Action S A) (f : Failure → Action S A) (s : S) {a : A} {s' : S}
    → m s ≡ (ok a, s')
    → catch m f s ≡ (ok a, s')
unfolding catch
catch-ok m f s h = ap (λ r. elim (r.0) [ ok a ↦ (ok a, r.1) | err e ↦ f e r.1 ]) h

pub catch-err :
    {S A : Type 0} (m : Action S A) (f : Failure → Action S A) (s : S) {e : Failure} {s' : S}
    → m s ≡ (err e, s')
    → catch m f s ≡ f e s'
unfolding catch
catch-err m f s h = ap (λ r. elim (r.0) [ ok a ↦ (ok a, r.1) | err e ↦ f e r.1 ]) h
