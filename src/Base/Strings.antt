-- ===== src/Base/Strings.antt =====
-- JavaScript strings as lists of UTF-16 code units, with the string methods that the program uses.
use Prim.Native.Nat.{ℕ, ◌+◌, ◌-◌, ◌*◌, ◌/◌, ◌%◌}
use Prim.Native.Char.{code}
use Prim.Native.String.{String}
use mathlib.Core.Path.{◌≡◌, refl, ap, ◌∙◌}
use mathlib.Core.Logic.{◌≢◌, ◌↔◌}
use mathlib.Core.Bool.{Bool, true, false, ◌&&◌}
use mathlib.Core.List.{List, [], ◌∷◌, ◌++◌}
use native.Mathlib.Omega.{arith}
use tactile.Base.Tests.{◌==◌, ltb, leb, if◌then◌else◌}
use tactile.Base.Lists.{All}

abbrev pub Text : Type 0
Text = List ℕ

-- The code units of a literal.
abbrev pub codes : String → Text
codes String.[] = []
codes (String.◌∷◌ c s) = code c ∷ codes s

-- `a === b` on strings.
unfoldable pub text_eq : Text → Text → Bool
text_eq [] [] = true
text_eq [] (y ∷ ys) = false
text_eq (x ∷ xs) [] = false
text_eq (x ∷ xs) (y ∷ ys) = x == y && text_eq xs ys

pub text_eq_refl : (a : Text) → text_eq a a ≡ true
unfolding text_eq
text_eq_refl [] = refl
text_eq_refl (x ∷ xs) = ground (arith, text_eq_refl xs)

pub text_eq_sound : (a b : Text) → text_eq a b ≡ true → a ≡ b
unfolding text_eq
text_eq_sound [] [] h = refl
text_eq_sound [] (y ∷ ys) h = cc
text_eq_sound (x ∷ xs) [] h = cc
text_eq_sound (x ∷ xs) (y ∷ ys) h = ground (arith, text_eq_sound xs ys)

pub text_eq_iff : (a b : Text) → (text_eq a b ≡ true) ↔ (a ≡ b)
text_eq_iff a b = (text_eq_sound a b, λ e. cc (text_eq_refl a, ap (λ t. text_eq a t) e))

-- `s.startsWith(p)`, with the arguments in the order of the call.
unfoldable pub starts_with : Text → Text → Bool
starts_with s [] = true
starts_with [] (y ∷ ys) = false
starts_with (x ∷ xs) (y ∷ ys) = x == y && starts_with xs ys

pub starts_with-append : (p rest : Text) → starts_with (p ++ rest) p ≡ true
unfolding starts_with
starts_with-append [] rest = refl
starts_with-append (x ∷ xs) rest = ground (arith, starts_with-append xs rest)

pub starts_with_sound : (s p : Text) → starts_with s p ≡ true → (rest : Text) × (s ≡ p ++ rest)
unfolding starts_with
starts_with_sound s [] h = (s, refl)
starts_with_sound [] (y ∷ ys) h = (cc)
starts_with_sound (x ∷ xs) (y ∷ ys) h =
    let (rest, e) = starts_with_sound xs ys (ground arith) in (rest, ground arith)

-- `s.split(c)` for a separator of one code unit: always at least one part.
abbrev pub cons_head : ℕ → List Text → List Text
cons_head x [] = (x ∷ []) ∷ []
cons_head x (p ∷ ps) = (x ∷ p) ∷ ps

unfoldable pub split : ℕ → Text → List Text
split c [] = [] ∷ []
split c (x ∷ xs) = let rest = split c xs in if x == c then [] ∷ rest else cons_head x rest

-- `parts.join(c)`.
unfoldable pub join : ℕ → List Text → Text
join c [] = []
join c (p ∷ []) = p
join c (p ∷ q ∷ ps) = p ++ c ∷ join c (q ∷ ps)

abbrev pub Lacks : ℕ → Text → Type 0
Lacks c = All (λ x. x ≢ c)

pub split-ne-nil : (c : ℕ) (s : Text) → split c s ≢ []
unfolding split
split-ne-nil c [] = cc
split-ne-nil c (x ∷ xs) = ground (arith, split-ne-nil c xs)

-- A text without the separator is one part.
pub split-Lacks : (c : ℕ) (p : Text) → Lacks c p → split c p ≡ p ∷ []
unfolding split
split-Lacks c [] h = refl
split-Lacks c (x ∷ xs) h = ground (arith, split-Lacks c xs h.1)

pub split-append : (c : ℕ) (p rest : Text) → Lacks c p → split c (p ++ c ∷ rest) ≡ p ∷ split c rest
unfolding split
split-append c [] rest h = ground arith
split-append c (x ∷ xs) rest h = ground (arith, split-append c xs rest h.1)

-- Splitting a join gives the parts back, if there is a part and none holds the separator.
pub split-join :
    (c : ℕ) (p : Text) (ps : List Text)
    → All (Lacks c) (p ∷ ps)
    → split c (join c (p ∷ ps)) ≡ p ∷ ps
unfolding join
split-join c p [] h = split-Lacks c p h.0
split-join c p (q ∷ ps) h =
    split-append c p (join c (q ∷ ps)) h.0 ∙ ap (λ r. p ∷ r) (split-join c q ps h.1)

-- No part of a split holds the separator.
pub All-Lacks : (c : ℕ) (s : Text) → All (Lacks c) (split c s)
unfolding split
All-Lacks c [] = (tt, tt)
All-Lacks c (x ∷ xs) = split_step c x (split c xs) (All-Lacks c xs)
  where
    split_step :
        (c x : ℕ) (rest : List Text)
        → All (Lacks c) rest
        → All (Lacks c) (if x == c then [] ∷ rest else cons_head x rest)
    split_step c x [] h = ground arith
    split_step c x (p ∷ ps) h = ground arith

abbrev pub is_high : ℕ → Bool
is_high u = leb 0xd800 u && ltb u 0xdc00

abbrev pub is_low : ℕ → Bool
is_low u = leb 0xdc00 u && ltb u 0xe000

-- The code points of a string: a surrogate pair is one, a lone surrogate stands for itself.
unfoldable pub code_points : Text → List ℕ
code_points [] = []
code_points (u ∷ []) = u ∷ []
code_points (u ∷ v ∷ rest) =
    let pair = ((u - 0xd800) * 0x400 + (v - 0xdc00) + 0x10000) ∷ code_points rest in
    let single = u ∷ code_points (v ∷ rest) in if is_high u && is_low v then pair else single

-- The UTF-8 bytes of a code point.
unfoldable pub utf8 : ℕ → List ℕ
utf8 p =
    if ltb p 0x80
    then p ∷ []
    else if ltb p 0x800
    then (0xc0 + p / 64) ∷ (0x80 + p % 64) ∷ []
    else if ltb p 0x10000
    then (0xe0 + p / 4096) ∷ (0x80 + p / 64 % 64) ∷ (0x80 + p % 64) ∷ []
    else (0xf0 + p / 262144) ∷ (0x80 + p / 4096 % 64) ∷ (0x80 + p / 64 % 64) ∷ (0x80 + p % 64) ∷ []
