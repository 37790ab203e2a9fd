-- ===== src/Paths/Hash.antt =====
-- `fnv1a` always gives eight characters, so a name made by `encodePathAsDir` is bounded.
use native.Mathlib.Nat.{pow-suc}
use tactile.Base.{
  ℕ, zero, suc, ◌+◌, ◌-◌, ◌*◌, ◌/◌, ◌%◌, ◌^◌, ◌≤◌, ◌<◌, ◌≡◌, refl, ap, [], ◌∷◌, arith, Text, length,
  length-append, replicate, take, length-take, Ensures, Ensures-then, code_points,
}
use tactile.Paths.{
  fnv_step, fnv_loop, to_hex_loop, to_hex, pad_start, fnv1a, encode_path_as_dir, normalize_path,
  encode_points, hex_digit,
}

-- The hash stays a 32-bit word.
pub fnv_loop-lt : (s : Text) (h : ℕ) → h < 2 ^ 32 → fnv_loop s h < 2 ^ 32
unfolding fnv_loop
fnv_loop-lt [] h lt = lt
fnv_loop-lt (c ∷ cs) h lt = fnv_loop-lt cs (fnv_step h c) (unfold fnv_step in omega arith)

div_lt : (n p : ℕ) → n < 16 * p → n / 16 < p
div_lt n p h = omega arith

-- A number below 16 ^ k has at most k digits, whatever the fuel.
pub length-to_hex_loop :
    (fuel k n : ℕ) (out : Text)
    → n < 16 ^ (suc k)
    → length (to_hex_loop fuel n out) ≤ suc k + length out
unfolding to_hex_loop
length-to_hex_loop zero k n out h = omega arith
length-to_hex_loop (suc f) zero n out h = ground arith
length-to_hex_loop (suc f) (suc k) n out h = ground (
  arith,
  length-to_hex_loop f k (n / 16) (hex_digit (n % 16) ∷ out)
      (div_lt n (16 ^ suc k) (omega (arith, h, pow-suc 16 (suc k)))),
)

length-replicate {ℓ} : {A : Type ℓ} (n : ℕ) (a : A) → length (replicate n a) ≡ n
length-replicate zero a = refl
length-replicate (suc n) a = ap suc (length-replicate n a)

length-pad_start : (w : ℕ) (s : Text) → length s ≤ w → length (pad_start w s) ≡ w
unfolding pad_start
length-pad_start w s h = omega (
  arith,
  length-append {0} (replicate (w - length s) b'0') s,
  length-replicate {0} {A = ℕ} (w - length s) b'0',
)

-- Every hash has eight hexadecimal digits.
pub length-fnv1a : (s : Text) → length (fnv1a s) ≡ 8
unfolding fnv1a
length-fnv1a s = length-pad_start 8 (to_hex (fnv_loop s 0x811c9dc5)) (
    unfold to_hex in
    omega (
      arith,
      length-to_hex_loop (suc (fnv_loop s 0x811c9dc5)) 7 (fnv_loop s 0x811c9dc5) []
          (fnv_loop-lt s 0x811c9dc5 (omega arith)),
    ))

-- A directory name of `encodePathAsDir` has at most 129 characters.
pub length-encode_path_as_dir : (p : Text) → Ensures (λ n. length n ≤ 129) (encode_path_as_dir p)
unfolding encode_path_as_dir
length-encode_path_as_dir p =
    Ensures-then (λ n. length n ≤ 129) (normalize_path p) _
      λ n.
        Ensures-then (λ n. length n ≤ 129) (encode_points (code_points n)) _
          λ e. omega (
            arith,
            length-append {0} (take 120 e) (b'-' ∷ fnv1a n),
            length-take {0} 120 e,
            length-fnv1a n,
          )
