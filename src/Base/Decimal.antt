-- ===== src/Base/Decimal.antt =====
-- Numbers in decimal, as a template literal writes them, and their use in names.
use Prim.Native.Nat.{ℕ, zero, suc, ◌+◌, ◌-◌, ◌*◌, ◌/◌, ◌%◌, ◌<◌}
use mathlib.Core.Path.{◌≡◌, refl, sym, ap, ◌∙◌}
use mathlib.Core.List.{[], ◌∷◌, ◌++◌}
use native.Mathlib.Omega.{arith}
use tactile.Base.Tests.{◌==◌, if◌then◌else◌}
use tactile.Base.Lists.{length, take, length-append, take-length}
use tactile.Base.Strings.{Text}

-- `${n}` in front of `out`; more fuel than `n` is enough.
unfoldable pub to_decimal_loop : ℕ → ℕ → Text → Text
to_decimal_loop zero n out = out
to_decimal_loop (suc fuel) n out =
    let rest = to_decimal_loop fuel (n / 10) ((b'0' + n % 10) ∷ out) in
    if n / 10 == 0 then (b'0' + n % 10) ∷ out else rest

unfoldable pub to_decimal : ℕ → Text
unfolding to_decimal_loop
to_decimal n = to_decimal_loop (suc n) n []

-- The number that digits spell behind those read so far.
unfoldable pub of_digits : ℕ → Text → ℕ
of_digits n [] = n
of_digits n (c ∷ cs) = of_digits (n * 10 + (c - b'0')) cs

of_digits-to_decimal_loop :
    (fuel n : ℕ) (out : Text)
    → n < fuel
    → of_digits 0 (to_decimal_loop fuel n out) ≡ of_digits n out
unfolding of_digits to_decimal_loop
of_digits-to_decimal_loop zero n out h = absurd (omega arith)
of_digits-to_decimal_loop (suc fuel) n out h =
    let rest = of_digits-to_decimal_loop fuel (n / 10) ((b'0' + n % 10) ∷ out) in
    let again : n / 10 * 10 + (b'0' + n % 10 - b'0') ≡ n = omega arith in
    let last : n / 10 ≡ 0 → 0 * 10 + (b'0' + n % 10 - b'0') ≡ n = λ z. omega arith in
    ground (arith, rest, again, last)

pub of_digits-to_decimal : (n : ℕ) → of_digits 0 (to_decimal n) ≡ n
unfolding to_decimal
of_digits-to_decimal n =
    of_digits-to_decimal_loop (suc n) n [] (omega arith) ∙ unfold of_digits in refl

-- Different numbers are written differently.
pub to_decimal-injective : (m n : ℕ) → to_decimal m ≡ to_decimal n → m ≡ n
to_decimal-injective m n h =
    sym (of_digits-to_decimal m) ∙ ap (of_digits 0) h ∙ of_digits-to_decimal n

pub append_cancel_left : (p a b : Text) → p ++ a ≡ p ++ b → a ≡ b
append_cancel_left [] a b h = h
append_cancel_left (x ∷ p) a b h = append_cancel_left p a b (cc)

pub append_cancel_right : (a b s : Text) → a ++ s ≡ b ++ s → a ≡ b
append_cancel_right a b s h =
    let same : length a ≡ length b =
      omega (arith, length-append {0} a s, length-append {0} b s, ap (length {0}) h) in
    sym (take-length a s)
    ∙ ap (take (length a)) h
    ∙ ap (λ n. take n (b ++ s)) same
    ∙ take-length b s
