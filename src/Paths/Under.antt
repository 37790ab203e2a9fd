-- ===== src/Paths/Under.antt =====
-- `isUnder` is containment of segments: '/a/bc' is not under '/a/b'.
use tactile.Base.{
  ℕ, ◌≡◌, refl, sym, ap, ◌∙◌, ◌↔◌, true, List, [], ◌∷◌, ◌++◌, append_assoc, append-nil, arith, Text,
  ok, text_eq, text_eq_iff, text_eq_refl, starts_with-append, starts_with_sound, split, join, Lacks,
  All, split-append, Bool-cases, inl, inr, length, length-append,
}
use tactile.Paths.{slash, from_segments, under, is_under, path_segments}
use tactile.Paths.Segments.{AreSegments}
use tactile.Paths.Normal.{
  Lacks-All, not_root, split-from_segments, path_segments-from_segments,
  normalize_path-from_segments,
}

-- `a` is `b` with segments behind it.
abbrev pub Extends : List Text → List Text → Type 0
Extends a b = (rest : List Text) × (a ≡ b ++ rest)

split-join_append :
    (c : ℕ) (p : Text) (ps : List Text) (rest : Text)
    → All (Lacks c) (p ∷ ps)
    → split c (join c (p ∷ ps) ++ c ∷ rest) ≡ (p ∷ ps) ++ split c rest
unfolding join
split-join_append c p [] rest h = split-append c p rest h.0
split-join_append c p (q ∷ ps) rest h =
    ap (split c) (append_assoc p (c ∷ join c (q ∷ ps)) (c ∷ rest))
    ∙ split-append c p (join c (q ∷ ps) ++ c ∷ rest) h.0
    ∙ ap (λ r. p ∷ r) (split-join_append c q ps rest h.1)

-- A normal path determines its segments.
pub from_segments-injective :
    (a b : List Text) → AreSegments a → AreSegments b → from_segments a ≡ from_segments b → a ≡ b
from_segments-injective a b ha hb e =
    cc (path_segments-from_segments a ha, path_segments-from_segments b hb, ap path_segments e)

split_below :
    (d : Text) (b : List Text) (rest : Text)
    → AreSegments (d ∷ b)
    → split slash (from_segments (d ∷ b) ++ slash ∷ rest) ≡ [] ∷ d ∷ (b ++ split slash rest)
unfolding join
split_below d b rest hb = split-join_append slash [] (d ∷ b) rest (tt, Lacks-All (d ∷ b) hb)

below_sound :
    (a : List Text) (d : Text) (b : List Text) (rest : Text)
    → AreSegments a
    → AreSegments (d ∷ b)
    → from_segments a ≡ (from_segments (d ∷ b) ++ slash ∷ []) ++ rest
    → Extends a (d ∷ b)
below_sound [] d b rest ha hb e = absurd (
    unfold join in
    omega (
      arith,
      ap length e,
      length-append {0} (join slash (d ∷ b) ++ slash ∷ []) rest,
      length-append {0} (join slash (d ∷ b)) (slash ∷ []),
    ))
below_sound (x ∷ a) d b rest ha hb e =
    let spelled = split_below d b rest hb in
    let same = ap (split slash) (e ∙ append_assoc (from_segments (d ∷ b)) (slash ∷ []) rest) in
    (split slash rest, cc (spelled, same, split-from_segments x a ha))

pub under_sound :
    (a b : List Text)
    → AreSegments a
    → AreSegments b
    → under (from_segments a) (from_segments b) ≡ true
    → Extends a b
unfolding under
under_sound a [] ha hb h = (a, refl)
under_sound a (d ∷ b) ha hb h =
    elim (Bool-cases (text_eq (from_segments a) (from_segments (d ∷ b)))) [
      | inl same ↦ (
        [],
        from_segments-injective a (d ∷ b) ha hb ((text_eq_iff _ _).0 same) ∙ sym (append-nil _),
      )
      | inr other ↦
          let below =
            starts_with_sound (from_segments a) (from_segments (d ∷ b) ++ slash ∷ [])
              (ground (arith, not_root d b hb.0)) in
          below_sound a d b below.0 ha hb below.1
    ]

from_segments-append :
    (d : Text) (b : List Text) (x : Text) (rest : List Text)
    → from_segments ((d ∷ b) ++ x ∷ rest)
      ≡ (from_segments (d ∷ b) ++ slash ∷ []) ++ join slash (x ∷ rest)
unfolding join
from_segments-append d [] x rest =
    ap (λ t. slash ∷ t) (sym (append_assoc d (slash ∷ []) (join slash (x ∷ rest))))
from_segments-append d (e ∷ b) x rest =
    ap (λ t. slash ∷ (d ++ t)) (from_segments-append e b x rest) ∙ simp append_assoc

pub under_complete :
    (b rest : List Text) → under (from_segments (b ++ rest)) (from_segments b) ≡ true
unfolding under
under_complete [] rest = unfold join text_eq in refl
under_complete (d ∷ b) [] = rw (append-nil, text_eq_refl) (ground arith)
under_complete (d ∷ b) (x ∷ rest) =
    rw
      (
        from_segments-append d b x rest,
        starts_with-append (from_segments (d ∷ b) ++ slash ∷ []) (join slash (x ∷ rest)),
      )
      (ground arith)

-- Of two normal paths, `isUnder` says whether the segments of the one begin with those of the
-- other.
pub is_under_iff :
    (a b : List Text)
    → AreSegments a
    → AreSegments b
    → (is_under (from_segments a) (from_segments b) ≡ ok true) ↔ Extends a b
unfolding is_under
is_under_iff a b ha hb =
    rw (normalize_path-from_segments a ha, normalize_path-from_segments b hb)
      (
        λ h. under_sound a b ha hb (cc),
        λ h. ap ok (ap (λ t. under (from_segments t) (from_segments b)) h.1 ∙ under_complete b h.0),
      )
