-- ===== src/Storage.antt =====
-- packages/storage/src/types.ts: the types shared by the storage backends, and the monad in which
-- the operations of a backend are written.
pub mod Backend
use tactile.Base.{◌≡◌, ap, ℕ, Bool, Option, some, none, List, Text, Result, ok, err, Failure}

pub record DirEntry : Type 0 where
  pub name : Text
  pub is_directory : Bool
  pub is_file : Bool
  pub is_symlink : Bool

-- Times are milliseconds since the epoch.
pub record FileStat : Type 0 where
  pub size : ℕ
  pub mtime : Option ℕ
  pub birthtime : Option ℕ

pub data ChangeKind : Type 0 where
  create write delete rename : ChangeKind

pub data ChangeOrigin : Type 0 where
  local sync external : ChangeOrigin

pub record ChangeEvent : Type 0 where
  pub path : Text
  pub kind : ChangeKind
  pub origin : ChangeOrigin
  pub old_path : Option Text

pub record BackendOptions : Type 0 where
  pub keep_version : Option Bool
  pub recursive : Bool
  pub origin : Option ChangeOrigin

-- `options?.origin ?? 'local'`
abbrev pub origin_or_local : BackendOptions → ChangeOrigin
origin_or_local options = elim (options.origin) [ some o ↦ o | none ↦ local ]

-- What a file holds: a string or bytes.
pub data FileData : Type 0 where
  text : Text → FileData
  bytes : List ℕ → FileData

-- An operation on a state: a result or what was thrown, and the state that is left either way.
abbrev pub Action : Type 0 → Type 0 → Type 0
Action S A = S → Result A × S

infixl 5 ◌>>=◌ ◌>>◌
abbrev pub ◌>>=◌ : {S A B : Type 0} → Action S A → (A → Action S B) → Action S B
◌>>=◌ m f s = let (r, s') = m s in elim r [ ok a ↦ f a s' | err e ↦ (err e, s') ]

abbrev pub ◌>>◌ : {S A B : Type 0} → Action S A → Action S B → Action S B
m >> k = m >>= λ _. k

abbrev pub pure : {S A : Type 0} → A → Action S A
pure a s = (ok a, s)

abbrev pub throw : {S A : Type 0} → Failure → Action S A
throw e s = (err e, s)

abbrev pub lift : {S A : Type 0} → Result A → Action S A
lift r s = (r, s)

pub >>=-ok :
    {S A B : Type 0} (m : Action S A) (f : A → Action S B) (s : S) {a : A} {s' : S}
    → m s ≡ (ok a, s')
    → (m >>= f) s ≡ f a s'
>>=-ok m f s {a} {s'} e = ap (λ r. elim (r.0) [ ok a ↦ f a r.1 | err e ↦ (err e, r.1) ]) e

pub >>=-err :
    {S A B : Type 0} (m : Action S A) (f : A → Action S B) (s : S) {e : Failure} {s' : S}
    → m s ≡ (err e, s')
    → (m >>= f) s ≡ (err e, s')
>>=-err m f s {e} {s'} h = ap (λ r. elim (r.0) [ ok a ↦ f a r.1 | err e ↦ (err e, r.1) ]) h
