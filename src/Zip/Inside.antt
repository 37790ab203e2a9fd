-- ===== src/Zip/Inside.antt =====
-- The names in an archive stay inside the directory that it is unpacked in.
use mathlib.Core.Path.{subst}
use tactile.Base.{
  ℕ, zero, suc, ◌+◌, ◌/◌, ◌%◌, Bool, true, false, ◌≡◌, ◌≢◌, refl, sym, ap, List, [], ◌∷◌, ◌++◌,
  Text, text_eq, text_eq_iff, codes, All, All-append, Lacks, All-Lacks, filter, split, split-ne-nil,
  cons_head, ==_iff, split-join, join, map, ◌==◌, any, length, take, drop, take-append-drop,
  append_assoc, to_decimal, to_decimal_loop, if◌then◌else◌, includes, first_free, Bool-cases, inl,
  inr, ◌⊎◌, arith,
}
use tactile.Paths.{slash}
use tactile.Zip.{
  ZipEntry, is_kept, sanitize_name, or_untitled, stem_end, numbered, unique_name, assign_names,
}
use tactile.Zip.Safe.{IsPlain, All-filter}

-- Not empty, and neither '.' nor '..'.
abbrev pub IsInner : Text → Type 0
IsInner s = (text_eq s [] ≡ false) × IsPlain s

abbrev has_paren : Text → Bool
has_paren s = any (λ c. c == b'(') s

has_paren-IsInner : (s : Text) → has_paren s ≡ true → IsInner s
unfolding text_eq
has_paren-IsInner s h = (differs [] refl, (differs (codes ".") refl, differs (codes "..") refl))
  where
    differs : (t : Text) → has_paren t ≡ false → text_eq s t ≡ false
    differs t n = elim (Bool-cases (text_eq s t)) [
      | inl e ↦ let same = ap has_paren ((text_eq_iff s t).0 e) in absurd (cc (same, h, n))
      | inr e ↦ e
    ]

-- One part of the second list has got a parenthesis; the others are those of the first.
abbrev Grown : List Text → List Text → Type 0
Grown [] ys = ⊥
Grown (x ∷ xs) [] = ⊥
Grown (x ∷ xs) (y ∷ ys) = ((has_paren y ≡ true) × (xs ≡ ys)) ⊎ ((x ≡ y) × Grown xs ys)

All-Grown : (xs ys : List Text) → Grown xs ys → All IsInner xs → All IsInner ys
All-Grown [] ys g h = absurd g
All-Grown (x ∷ xs) [] g h = absurd g
All-Grown (x ∷ xs) (y ∷ ys) (inl (p, e)) h = (has_paren-IsInner y p, rw (← e) h.1)
All-Grown (x ∷ xs) (y ∷ ys) (inr (e, g)) h = (rw (← e) h.0, All-Grown xs ys g h.1)

abbrev prepend : Text → List Text → List Text
prepend mid [] = mid ∷ []
prepend mid (p ∷ ps) = (mid ++ p) ∷ ps

split-prepend :
    (mid b : Text) → Lacks slash mid → split slash (mid ++ b) ≡ prepend mid (split slash b)
unfolding split
split-prepend [] b h = some_part (split slash b) (split-ne-nil slash b)
  where
    some_part : (ss : List Text) → ss ≢ [] → ss ≡ prepend [] ss
    some_part [] n = absurd (n refl)
    some_part (p ∷ ps) n = refl
split-prepend (x ∷ mid) b h = elim (Bool-cases (x == slash)) [
  | inl e ↦ absurd (h.0 ((==_iff x slash).0 e))
  | inr e ↦ rw (e, split-prepend mid b h.1) (added (split slash b))
]
  where
    added : (ss : List Text) → cons_head x (prepend mid ss) ≡ prepend (x ∷ mid) ss
    added [] = refl
    added (p ∷ ps) = refl

Grown-prepend : (m : Text) (ss : List Text) → ss ≢ [] → Grown ss (prepend (b' ' ∷ b'(' ∷ m) ss)
Grown-prepend m [] n = absurd (n refl)
Grown-prepend m (p ∷ ps) n = inl (refl, refl)

Grown-cons_head :
    (c : ℕ) (xs ys : List Text) → Grown xs ys → Grown (cons_head c xs) (cons_head c ys)
Grown-cons_head c [] ys g = absurd g
Grown-cons_head c (x ∷ xs) [] g = absurd g
Grown-cons_head c (x ∷ xs) (y ∷ ys) (inl (p, e)) = inl (ground (arith, p), e)
Grown-cons_head c (x ∷ xs) (y ∷ ys) (inr (e, g)) = inr (ap (λ t. c ∷ t) e, g)

Grown-split :
    (a m b : Text)
    → Lacks slash m
    → Grown (split slash (a ++ b)) (split slash (a ++ (codes " (" ++ (m ++ b))))
unfolding split
Grown-split [] m b h =
    let marked : Lacks slash (b' ' ∷ b'(' ∷ m) = (omega arith, (omega arith, h)) in
    rw (split-prepend (b' ' ∷ b'(' ∷ m) b marked)
      (Grown-prepend m (split slash b) (split-ne-nil slash b))
Grown-split (c ∷ a) m b h =
    let rest = Grown-split a m b h in
    elim (Bool-cases (c == slash)) [
      | inl e ↦ rw (e, Grown) (inr (refl, rest))
      | inr e ↦
          rw (e, Grown)
            (Grown-cons_head c (split slash (a ++ b)) (split slash (a ++ (codes " (" ++ (m ++ b))))
              rest)
    ]

Lacks-to_decimal_loop :
    (fuel n : ℕ) (out : Text) → Lacks slash out → Lacks slash (to_decimal_loop fuel n out)
unfolding to_decimal_loop
Lacks-to_decimal_loop zero n out h = h
Lacks-to_decimal_loop (suc fuel) n out h =
    let digit : b'0' + n % 10 ≢ slash = omega arith in
    let rest = Lacks-to_decimal_loop fuel (n / 10) ((b'0' + n % 10) ∷ out) (digit, h) in
    elim (Bool-cases (n / 10 == 0)) [ inl e ↦ rw (e, All) (digit, h) | inr e ↦ rw (e, All) rest ]

numbered-IsInner :
    (name : Text) (i : ℕ)
    → All IsInner (split slash name)
    → All IsInner (split slash (numbered name i))
unfolding numbered to_decimal
numbered-IsInner name i h =
    let front = take (stem_end name) name in
    let back = drop (stem_end name) name in
    let number = to_decimal i in
    let marked : Lacks slash (number ++ codes ")") =
      All-append (λ x. x ≢ slash) number (codes ")") (Lacks-to_decimal_loop (suc i) i [] tt)
        (omega arith, tt) in
    let same : split slash name ≡ split slash (front ++ back) =
      ap (split slash) (sym (take-append-drop (stem_end name) name)) in
    let grown = Grown-split front (number ++ codes ")") back marked in
    subst (λ t. All IsInner (split slash (front ++ (codes " (" ++ t))))
      (append_assoc number (codes ")") back)
      (All-Grown (split slash (front ++ back))
        (split slash (front ++ (codes " (" ++ ((number ++ codes ")") ++ back)))) grown
        (subst (All IsInner) same h))

unique_name-IsInner :
    (used : List Text) (name : Text)
    → All IsInner (split slash name)
    → All IsInner (split slash (unique_name used name))
unfolding unique_name
unique_name-IsInner used name h = elim (Bool-cases (includes used name)) [
  | inl e ↦
      rw (e, All)
        (numbered-IsInner name
          (first_free (suc (length used)) (λ i. includes used (numbered name i)) 1) h)
  | inr e ↦ rw (e, All) h
]

filter-IsInner : (ss : List Text) → All IsInner (filter is_kept ss)
unfolding is_kept
filter-IsInner [] = tt
filter-IsInner (s ∷ ss) = elim (Bool-cases (is_kept s)) [
  | inl e ↦ rw (e, All) ((ground arith, (ground arith, ground arith)), filter-IsInner ss)
  | inr e ↦ rw (e, All) (filter-IsInner ss)
]

or_untitled-IsInner :
    (t : Text) → All IsInner (split slash t) → All IsInner (split slash (or_untitled t))
unfolding or_untitled split text_eq
or_untitled-IsInner [] h = ((refl, (refl, refl)), tt)
or_untitled-IsInner (c ∷ cs) h = h

joined-IsInner :
    (ss : List Text)
    → All (Lacks slash) ss
    → All IsInner ss
    → All IsInner (split slash (or_untitled (join slash ss)))
unfolding join split text_eq or_untitled
joined-IsInner [] l h = ((refl, (refl, refl)), tt)
joined-IsInner (s ∷ ss) l h =
    or_untitled-IsInner (join slash (s ∷ ss))
      (subst (All IsInner) (sym (split-join slash s ss l)) h)

sanitize_name-IsInner : (name : Text) → All IsInner (split slash (or_untitled (sanitize_name name)))
unfolding sanitize_name
sanitize_name-IsInner name =
    let parts = split slash (map (λ c. if c == b'\\' then slash else c) name) in
    let kept =
      All-filter parts (All-Lacks slash (map (λ c. if c == b'\\' then slash else c) name)) in
    joined-IsInner (filter is_kept parts) kept.0 (filter-IsInner parts)

-- Every name that the entries of an archive get is a relative path: no segment of it is empty, '.' or
-- '..', whatever the entries are called, the numbers of repeated names included.
pub assign_names-IsInner :
    (used : List Text) (es : List ZipEntry)
    → All (λ name. All IsInner (split slash name)) (assign_names used es)
unfolding assign_names
assign_names-IsInner used [] = tt
assign_names-IsInner used (e ∷ es) =
    let name = or_untitled (sanitize_name e.name) in
    (
      unique_name-IsInner used name (sanitize_name-IsInner e.name),
      assign_names-IsInner (unique_name used name ∷ used) es,
    )
