-- ===== src/Base/Free.antt =====
-- The loops that count up to the first free number or name, and why they end.
use Prim.Native.Nat.{ℕ, zero, suc, ◌≤◌, ◌<◌}
use mathlib.Core.Path.{◌≡◌, refl, sym, ap, ◌∙◌}
use mathlib.Core.Logic.{◌⊎◌, inl, inr}
use mathlib.Core.Bool.{Bool, true, false}
use mathlib.Core.List.{List, [], ◌∷◌}
use native.Mathlib.Omega.{arith}
use tactile.Base.Tests.{if◌then◌else◌, Bool-cases}
use tactile.Base.Lists.{length, any, All}
use tactile.Base.Strings.{Text, text_eq, text_eq_iff}

-- `xs.includes(x)`, or `has` on a set.
abbrev pub includes : List Text → Text → Bool
includes xs x = any (λ y. text_eq y x) xs

-- No name is listed twice.
abbrev pub AllDistinct : List Text → Type 0
AllDistinct [] = Unit
AllDistinct (x ∷ xs) = All (λ y. text_eq x y ≡ false) xs × AllDistinct xs

-- `while (taken(i)) i++`, for `fuel` rounds at most.
unfoldable pub first_free : ℕ → (ℕ → Bool) → ℕ → ℕ
first_free zero taken i = i
first_free (suc fuel) taken i = elim (taken i) [ true ↦ first_free fuel taken (suc i) | false ↦ i ]

-- The `n` numbers from `i` on all satisfy the test.
abbrev pub AllTaken : (ℕ → Bool) → ℕ → ℕ → Type 0
AllTaken taken i zero = Unit
AllTaken taken i (suc n) = (taken i ≡ true) × AllTaken taken (suc i) n

-- The loop stops at the first number that is free, or all its rounds were taken.
first_free_or :
    (fuel : ℕ) (taken : ℕ → Bool) (i : ℕ)
    → (taken (first_free fuel taken i) ≡ false) ⊎ AllTaken taken i fuel
unfolding first_free
first_free_or zero taken i = inr tt
first_free_or (suc fuel) taken i = decide (taken i) refl (first_free_or fuel taken (suc i))
  where
    decide :
        (b : Bool)
        → taken i ≡ b
        → (taken (first_free fuel taken (suc i)) ≡ false) ⊎ AllTaken taken (suc i) fuel
        → (taken (elim b [ true ↦ first_free fuel taken (suc i) | false ↦ i ]) ≡ false)
          ⊎ ((taken i ≡ true) × AllTaken taken (suc i) fuel)
    decide false e h = inl e
    decide true e (inl h) = inl h
    decide true e (inr h) = inr (e, h)

unfoldable remove_one : Text → List Text → List Text
remove_one x [] = []
remove_one x (y ∷ ys) = let rest = remove_one x ys in if text_eq y x then ys else y ∷ rest

length-remove_one :
    (x : Text) (ys : List Text) → includes ys x ≡ true → suc (length (remove_one x ys)) ≡ length ys
unfolding remove_one
length-remove_one x [] h = absurd (cc h)
length-remove_one x (y ∷ ys) h = ground (arith, length-remove_one x ys)

includes-remove_one :
    (x z : Text) (ys : List Text)
    → text_eq x z ≡ false
    → includes ys z ≡ true
    → includes (remove_one x ys) z ≡ true
unfolding remove_one
includes-remove_one x z [] e h = h
includes-remove_one x z (y ∷ ys) e h =
    ground (arith, includes-remove_one x z ys e, text_eq_iff y x, text_eq_iff x z, text_eq_iff y z)

-- As many different names as the list is long are not all in it, with one more.
pigeonhole :
    (name : ℕ → Text)
    → ((i j : ℕ) → name i ≡ name j → i ≡ j)
    → (n i : ℕ) (used : List Text) → AllTaken (λ k. includes used (name k)) i n
    → n ≤ length used
pigeonhole name inj zero i used h = omega arith
pigeonhole name inj (suc n) i used h =
    let rest =
      pigeonhole name inj n (suc i) (remove_one (name i) used)
        (fewer n (suc i) (omega arith) h.1) in
    omega (arith, rest, length-remove_one (name i) used h.0)
  where
    apart : (j : ℕ) → i < j → text_eq (name i) (name j) ≡ false
    apart j lt = elim (Bool-cases (text_eq (name i) (name j))) [
      | inr e ↦ e
      | inl e ↦ absurd (omega (arith, inj i j ((text_eq_iff (name i) (name j)).0 e)))
    ]

    fewer :
        (m j : ℕ)
        → i < j
        → AllTaken (λ k. includes used (name k)) j m
        → AllTaken (λ k. includes (remove_one (name i) used) (name k)) j m
    fewer zero j lt t = tt
    fewer (suc m) j lt t = (
      includes-remove_one (name i) (name j) used (apart j lt) t.0,
      fewer m (suc j) (omega arith) t.1,
    )

-- With different names for different numbers, one more round than there are names is enough to
-- find a free one.
pub first_free_lem :
    (name : ℕ → Text)
    → ((i j : ℕ) → name i ≡ name j → i ≡ j)
    → (used : List Text) (i : ℕ)
    → includes used (name (first_free (suc (length used)) (λ k. includes used (name k)) i)) ≡ false
first_free_lem name inj used i =
    elim (first_free_or (suc (length used)) (λ k. includes used (name k)) i) [
      | inl h ↦ h
      | inr h ↦ absurd (omega (arith, pigeonhole name inj (suc (length used)) i used h))
    ]

-- Every number before the one that is found is taken.
pub first_free_least :
    (fuel : ℕ) (taken : ℕ → Bool) (i j : ℕ) → i ≤ j → j < first_free fuel taken i → taken j ≡ true
unfolding first_free
first_free_least zero taken i j le lt = absurd (omega arith)
first_free_least (suc fuel) taken i j le lt =
    decide (taken i) refl (λ more l. first_free_least fuel taken (suc i) j more l) (same_or i j le)
      lt
  where
    same_or : (i j : ℕ) → i ≤ j → (i ≡ j) ⊎ (suc i ≤ j)
    same_or i j h = ground arith

    decide :
        (b : Bool)
        → taken i ≡ b
        → (suc i ≤ j → j < first_free fuel taken (suc i) → taken j ≡ true)
        → (i ≡ j) ⊎ (suc i ≤ j)
        → j < (elim b [ true ↦ first_free fuel taken (suc i) | false ↦ i ])
        → taken j ≡ true
    decide false e k o lt = absurd (omega arith)
    decide true e k (inl s) lt = ap taken (sym s) ∙ e
    decide true e k (inr more) lt = k more lt
