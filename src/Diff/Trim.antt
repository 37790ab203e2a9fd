-- ===== src/Diff/Trim.antt =====
-- The loops of `diffLines` that trim the common prefix and suffix.
use tactile.Base.{
  ℕ, zero, suc, ◌+◌, ◌-◌, ◌≤◌, ◌<◌, min, ◌≡◌, refl, sym, ap, ◌∙◌, true, Option, some, none, List,
  [], ◌∷◌, ◌++◌, arith, Text, text_eq_iff, length, take, drop, get_elem?, take-append-drop,
  length-take, length-drop, drop-drop, Bool-cases, inl, inr,
}
use tactile.Diff.{common_prefix, common_suffix, same_line, slice}

-- Both lists begin with the same lines.
pub take-common_prefix : (a b : List Text) → take (common_prefix a b) a ≡ take (common_prefix a b) b
unfolding common_prefix
take-common_prefix [] b = refl
take-common_prefix (x ∷ a) [] = refl
take-common_prefix (x ∷ a) (y ∷ b) = ground (arith, text_eq_iff x y, take-common_prefix a b)

pub common_prefix-le :
    (a b : List Text) → (common_prefix a b ≤ length a) × (common_prefix a b ≤ length b)
unfolding common_prefix
common_prefix-le [] b = omega arith
common_prefix-le (x ∷ a) [] = omega arith
common_prefix-le (x ∷ a) (y ∷ b) = ground (arith, common_prefix-le a b)

drop_at :
    (xs : List Text) (i : ℕ) {x : Text} → get_elem? xs i ≡ some x → drop i xs ≡ x ∷ drop (suc i) xs
drop_at [] i h = cc
drop_at (x ∷ xs) zero h = ground arith
drop_at (x ∷ xs) (suc i) h = drop_at xs i h

same_line_sound :
    (m n : Option Text) → same_line m n ≡ true → (x : Text) × (m ≡ some x) × (n ≡ some x)
same_line_sound (some x) (some y) h = (x, refl, ap some (sym ((text_eq_iff x y).0 h)))
same_line_sound (some x) none h = (x, refl, cc)
same_line_sound none n h = ([], cc, cc)

-- What the suffix loop returns: a number of rounds that fits, and equal ends.
pub record IsSuffix (a b : List Text) (limit r : ℕ) : Type 0 where
  pub fits : r ≤ limit
  pub ends : drop (length a - r) a ≡ drop (length b - r) b

one_more :
    (a b : List Text) (s : ℕ)
    → s < length a
    → s < length b
    → drop (length a - s) a ≡ drop (length b - s) b
    → same_line (get_elem? a (length a - 1 - s)) (get_elem? b (length b - 1 - s)) ≡ true
    → drop (length a - suc s) a ≡ drop (length b - suc s) b
one_more a b s la lb e h =
    let (x, ea, eb) = same_line_sound _ _ h in
    let da = drop_at a (length a - 1 - s) ea in
    let db = drop_at b (length b - 1 - s) eb in
    let na : length a - 1 - s ≡ length a - suc s = omega arith in
    let nb : length b - 1 - s ≡ length b - suc s = omega arith in
    let ma : suc (length a - suc s) ≡ length a - s = omega arith in
    let mb : suc (length b - suc s) ≡ length b - s = omega arith in
    (rw (na, ma) at da) ∙ ap (λ r. x ∷ r) e ∙ sym (rw (nb, mb) at db)

pub common_suffix_lem :
    (a b : List Text) (room s : ℕ)
    → s + room ≤ length a
    → s + room ≤ length b
    → drop (length a - s) a ≡ drop (length b - s) b
    → IsSuffix a b (s + room) (common_suffix a b room s)
unfolding common_suffix
common_suffix_lem a b zero s la lb e = record { fits = omega arith; ends = e }
common_suffix_lem a b (suc room) s la lb e =
    elim (Bool-cases
      (same_line (get_elem? a (length a - 1 - s)) (get_elem? b (length b - 1 - s)))) [
        | inl more ↦
            let r =
              common_suffix_lem a b room (suc s) (omega arith) (omega arith)
                (one_more a b s (omega arith) (omega arith) e more) in
            rw more (record { fits = omega (arith, r.fits); ends = r.ends })
        | inr stop ↦ rw stop (record { fits = omega arith; ends = e })
      ]

drop_all : (xs : List Text) → drop (length xs - 0) xs ≡ []
drop_all xs = ap (λ n. drop n xs) (omega arith) ∙ past xs
  where
    past : (xs : List Text) → drop (length xs) xs ≡ []
    past [] = refl
    past (x ∷ xs) = past xs

-- The suffix found behind a common prefix of `p` lines does not reach into it.
pub suffix_from :
    (a b : List Text) (p : ℕ)
    → p ≤ length a
    → p ≤ length b
    → IsSuffix a b
        (min (length a - p) (length b - p))
        (common_suffix a b (min (length a - p) (length b - p)) 0)
suffix_from a b p la lb =
    let room = min (length a - p) (length b - p) in
    let r =
      common_suffix_lem a b room 0 (omega arith) (omega arith) (drop_all a ∙ sym (drop_all b)) in
    record { fits = omega (arith, r.fits); ends = r.ends }

-- A list is its first lines, a slice and the rest.
pub pieces : (xs : List Text) (p e : ℕ) → p ≤ e → take p xs ++ (slice xs p e ++ drop e xs) ≡ xs
pieces xs p e h =
    let back : p + (e - p) ≡ e = omega arith in
    let tail : drop (e - p) (drop p xs) ≡ drop e xs =
      drop-drop (e - p) p xs ∙ ap (λ k. drop k xs) back in
    ap (λ r. take p xs ++ (slice xs p e ++ r)) (sym tail)
    ∙ ap (λ r. take p xs ++ r) (take-append-drop (e - p) (drop p xs))
    ∙ take-append-drop p xs

pub length-slice :
    (xs : List Text) (p e : ℕ) → p ≤ e → e ≤ length xs → length (slice xs p e) ≡ e - p
length-slice xs p e h k = omega (arith, length-take {0} (e - p) (drop p xs), length-drop {0} p xs)
