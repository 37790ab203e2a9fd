-- ===== src/Base/Sort.antt =====
-- `sort()` of an array of strings, as an insertion sort.
use mathlib.Core.Path.{◌≡◌, refl}
use mathlib.Core.Bool.{Bool, true, false, ◌||◌}
use mathlib.Core.List.{List, [], ◌∷◌}
use native.Mathlib.Omega.{arith}
use tactile.Base.Tests.{ltb, ◌==◌, if◌then◌else◌}
use tactile.Base.Strings.{Text, text_eq}
use tactile.Base.Free.{includes}

-- `a < b` by code units, the order of `sort()`.
unfoldable pub text_lt : Text → Text → Bool
text_lt [] [] = false
text_lt [] (y ∷ ys) = true
text_lt (x ∷ xs) [] = false
text_lt (x ∷ xs) (y ∷ ys) = if x == y then text_lt xs ys else ltb x y

unfoldable pub insert_name : Text → List Text → List Text
unfolding text_lt
insert_name x [] = x ∷ []
insert_name x (y ∷ ys) =
    let later = insert_name x ys in if text_lt y x then y ∷ later else x ∷ y ∷ ys

unfoldable pub sort_names : List Text → List Text
unfolding insert_name
sort_names [] = []
sort_names (x ∷ xs) = insert_name x (sort_names xs)

includes-insert_name :
    (x k : Text) (xs : List Text) → includes (insert_name x xs) k ≡ (text_eq x k || includes xs k)
unfolding insert_name
includes-insert_name x k [] = refl
includes-insert_name x k (y ∷ ys) = ground (arith, includes-insert_name x k ys)

pub includes-sort_names : (xs : List Text) (k : Text) → includes (sort_names xs) k ≡ includes xs k
unfolding sort_names
includes-sort_names [] k = refl
includes-sort_names (x ∷ xs) k =
    ground (arith, includes-insert_name x k (sort_names xs), includes-sort_names xs k)
