-- ===== src/Base/Dict.antt =====
-- Association lists: a JavaScript object or `Map` with string keys.
use mathlib.Core.Path.{◌≡◌, refl}
use mathlib.Core.Option.{Option, none, some}
use mathlib.Core.List.{List, [], ◌∷◌}
use native.Mathlib.Omega.{arith}
use tactile.Base.Tests.{if◌then◌else◌}
use tactile.Base.Strings.{Text, text_eq, text_eq_iff}

unfoldable pub lookup {ℓ} : {A : Type ℓ} → Text → List (Text × A) → Option A
lookup k [] = none
lookup k (e ∷ d) = if text_eq e.0 k then some e.1 else lookup k d

-- `d[k] = a`: a key that is there keeps its place.
unfoldable pub assign {ℓ} : {A : Type ℓ} → Text → A → List (Text × A) → List (Text × A)
assign k a [] = (k, a) ∷ []
assign k a (e ∷ d) = let rest = assign k a d in if text_eq e.0 k then (k, a) ∷ d else e ∷ rest

-- `delete d[k]`
unfoldable pub erase {ℓ} : {A : Type ℓ} → Text → List (Text × A) → List (Text × A)
erase k [] = []
erase k (e ∷ d) = let rest = erase k d in if text_eq e.0 k then rest else e ∷ rest

pub lookup-assign {ℓ} :
    {A : Type ℓ} (k q : Text) (a : A) (d : List (Text × A))
    → lookup q (assign k a d) ≡ (if text_eq k q then some a else lookup q d)
unfolding lookup assign
lookup-assign k q a [] = refl
lookup-assign k q a (e ∷ d) =
    ground (arith, lookup-assign k q a d, text_eq_iff e.0 k, text_eq_iff k q, text_eq_iff e.0 q)

pub lookup-erase {ℓ} :
    {A : Type ℓ} (k q : Text) (d : List (Text × A))
    → lookup q (erase k d) ≡ (if text_eq k q then none else lookup q d)
unfolding lookup erase
lookup-erase k q [] = ground arith
lookup-erase k q (e ∷ d) =
    ground (arith, lookup-erase k q d, text_eq_iff e.0 k, text_eq_iff k q, text_eq_iff e.0 q)
