-- ===== src/Naming/Numbers.antt =====
-- A number that was written into a name is read back from it.
use tactile.Base.{
  ℕ, zero, suc, ◌+◌, ◌-◌, ◌/◌, ◌%◌, ◌≤◌, Bool, true, ◌≡◌, refl, sym, ap, ◌∙◌, some, [], ◌∷◌, ◌++◌,
  Text, length, take, drop, length-append, take-length, drop-length, append_assoc, leb, arith,
  to_decimal, to_decimal_loop, of_digits, of_digits-to_decimal,
}
use tactile.Naming.{is_digit, all_digits, digits_of, matches, number_between}

all_digits-to_decimal_loop :
    (fuel n : ℕ) (out : Text)
    → all_digits out ≡ true
    → all_digits (to_decimal_loop fuel n out) ≡ true
unfolding all_digits to_decimal_loop is_digit
all_digits-to_decimal_loop zero n out h = h
all_digits-to_decimal_loop (suc fuel) n out h =
    let digit : is_digit (b'0' + n % 10) ≡ true = ground arith in
    ground (arith, h, digit, all_digits-to_decimal_loop fuel (n / 10) ((b'0' + n % 10) ∷ out))

length-to_decimal_loop :
    (fuel n : ℕ) (out : Text) → length out ≤ length (to_decimal_loop fuel n out)
unfolding to_decimal_loop
length-to_decimal_loop zero n out = omega arith
length-to_decimal_loop (suc fuel) n out =
    ground (arith, length-to_decimal_loop fuel (n / 10) ((b'0' + n % 10) ∷ out))

to_decimal-some : (n : ℕ) → 1 ≤ length (to_decimal n)
unfolding to_decimal to_decimal_loop
to_decimal-some n = ground (arith, length-to_decimal_loop n (n / 10) ((b'0' + n % 10) ∷ []))

pub digits_of-to_decimal : (n : ℕ) → digits_of (to_decimal n) ≡ some n
digits_of-to_decimal n =
    known (to_decimal n) refl
      (unfold to_decimal in all_digits-to_decimal_loop (suc n) n [] (unfold all_digits in refl))
      (to_decimal-some n)
  where
    known :
        (t : Text) → t ≡ to_decimal n → all_digits t ≡ true → 1 ≤ length t → digits_of t ≡ some n
    known [] e a l = absurd (omega arith)
    known (c ∷ cs) e a l =
        unfold digits_of in
        rw a (ap (λ r. some (of_digits 0 r)) e ∙ ap some (of_digits-to_decimal n))

matches_refl :
    (same : ℕ → ℕ → Bool) → ((c : ℕ) → same c c ≡ true) → (s : Text) → matches same s s ≡ true
unfolding matches
matches_refl same r [] = refl
matches_refl same r (c ∷ cs) = rw (r c) (matches_refl same r cs)

-- The number written between a prefix and a suffix is the number read.
pub number_between-to_decimal :
    (same : ℕ → ℕ → Bool)
    → ((c : ℕ) → same c c ≡ true)
    → (prefix suffix : Text) (n : ℕ)
    → number_between same prefix suffix (prefix ++ (to_decimal n ++ suffix)) ≡ some n
unfolding number_between
number_between-to_decimal same r prefix suffix n =
    let d = to_decimal n in
    let len : length (prefix ++ (d ++ suffix)) ≡ length prefix + length d + length suffix =
      omega (arith, length-append {0} prefix (d ++ suffix), length-append {0} d suffix) in
    let fits : leb (length prefix + length suffix) (length (prefix ++ (d ++ suffix))) ≡ true =
      ground (arith, len) in
    let left : matches same prefix (take (length prefix) (prefix ++ (d ++ suffix))) ≡ true =
      ap (matches same prefix) (take-length prefix (d ++ suffix)) ∙ matches_refl same r prefix in
    let cut : length (prefix ++ (d ++ suffix)) - length suffix ≡ length (prefix ++ d) =
      omega (arith, len, length-append {0} prefix d) in
    let right : matches same suffix
          (drop (length (prefix ++ (d ++ suffix)) - length suffix) (prefix ++ (d ++ suffix)))
        ≡ true =
      ap (λ k. matches same suffix (drop k (prefix ++ (d ++ suffix)))) cut
      ∙ ap (λ t. matches same suffix (drop (length (prefix ++ d)) t))
          (sym (append_assoc prefix d suffix))
      ∙ ap (matches same suffix) (drop-length (prefix ++ d) suffix)
      ∙ matches_refl same r suffix in
    let size : length (prefix ++ (d ++ suffix)) - length suffix - length prefix ≡ length d =
      omega (arith, len) in
    let middle : take (length (prefix ++ (d ++ suffix)) - length suffix - length prefix)
          (drop (length prefix) (prefix ++ (d ++ suffix)))
        ≡ d =
      ap (λ k. take k (drop (length prefix) (prefix ++ (d ++ suffix)))) size
      ∙ ap (take (length d)) (drop-length prefix (d ++ suffix))
      ∙ take-length d suffix in
    rw (fits, left, right, middle) (digits_of-to_decimal n)
