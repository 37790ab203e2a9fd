-- ===== src/Base/Outcome.antt =====
-- What an operation may throw, and computations that may throw.
-- The texts of error messages are for display and are not modelled.
use mathlib.Core.Path.{◌≡◌, refl}

-- packages/storage/src/paths.ts, the `code` of a `StorageError`.
pub data ErrorCode : Type 0 where
  invalid_path not_found already_exists not_empty is_directory not_directory : ErrorCode
  unsupported locked quota : ErrorCode

-- The name of a `DOMException` that a browser interface throws.
pub data DomError : Type 0 where
  not_found_error type_mismatch_error no_modification_allowed_error : DomError
  quota_exceeded_error invalid_modification_error other_error : DomError

-- A `StorageError` with its code, a plain `Error`, the `URIError` of `encodeURIComponent`, or a
-- `DOMException`.
pub data Failure : Type 0 where
  storage : ErrorCode → Failure
  plain uri : Failure
  dom : DomError → Failure

pub data Result {ℓ} (A : Type ℓ) : Type ℓ where
  ok : A → Result A
  err : Failure → Result A

infixl 5 ◌>>=◌
abbrev pub ◌>>=◌ {ℓ κ} : {X : Type ℓ} {Y : Type κ} → Result X → (X → Result Y) → Result Y
err failure >>= next = err failure
ok x >>= next = next x

-- What holds of the result, if there is one.
abbrev pub Ensures {ℓ κ} : {A : Type ℓ} → (A → Type κ) → Result A → Type κ
Ensures P (ok a) = P a
Ensures P (err e) = Unit

pub Ensures-ok {ℓ κ} :
    {A : Type ℓ} (P : A → Type κ) (m : Result A) {a : A} → Ensures P m → m ≡ ok a → P a
Ensures-ok P m h e = rw e at h

pub Ensures-bind {ℓ κ} :
    {A : Type ℓ} {B : Type ℓ} (P : A → Type κ) (Q : B → Type κ) (m : Result A) (f : A → Result B)
    → Ensures P m
    → ((a : A) → P a → Ensures Q (f a))
    → Ensures Q (m >>= f)
Ensures-bind P Q (ok a) f h k = k a h
Ensures-bind P Q (err e) f h k = tt

pub Ensures-then {ℓ κ} :
    {A : Type ℓ} {B : Type ℓ} (Q : B → Type κ) (m : Result A) (f : A → Result B)
    → ((a : A) → Ensures Q (f a))
    → Ensures Q (m >>= f)
Ensures-then Q (ok a) f k = k a
Ensures-then Q (err e) f k = tt

-- A chain that succeeds has a first step that does.
pub >>=-eq-ok {ℓ} :
    {X Y : Type ℓ} (step : Result X) (next : X → Result Y) {y : Y}
    → (step >>= next) ≡ ok y
    → (x : X) × (step ≡ ok x) × (next x ≡ ok y)
>>=-eq-ok (err failure) next done = cc
>>=-eq-ok (ok x) next done = (x, refl, done)
