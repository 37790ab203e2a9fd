-- ===== src/Paths/Segments.antt =====
-- Segments: what stands between the slashes of a normalised path.
use tactile.Base.{
  ◌≡◌, refl, false, List, [], ◌∷◌, arith, Text, ok, Ensures, Ensures-bind, codes, text_eq, Lacks,
  All, ◌||◌, Ensures, Ensures-bind, Bool-cases, inl, inr,
}
use tactile.Paths.{slash, collect_segments}

-- Neither empty nor '.' nor '..', and without a slash.
pub record IsSegment (s : Text) : Type 0 where
  pub not_empty : text_eq s [] ≡ false
  pub not_dot : text_eq s (codes ".") ≡ false
  pub not_dots : text_eq s (codes "..") ≡ false
  pub lacks : Lacks slash s

abbrev pub AreSegments : List Text → Type 0
AreSegments = All IsSegment

pub collect_sound :
    (parts : List Text) → All (Lacks slash) parts → Ensures AreSegments (collect_segments parts)
unfolding collect_segments
collect_sound [] h = tt
collect_sound (p ∷ ps) h = elim (Bool-cases (text_eq p [] || text_eq p (codes "."))) [
  | inl skip ↦ rw skip (collect_sound ps h.1)
  | inr keep ↦ elim (Bool-cases (text_eq p (codes ".."))) [
    | inl up ↦ rw (keep, up) tt
    | inr fine ↦
        let segment : IsSegment p = record {
          not_empty = ground arith;
          not_dot = ground arith;
          not_dots = fine;
          lacks = h.0;
        } in
        rw (keep, fine)
          (Ensures-bind AreSegments AreSegments (collect_segments ps) (λ r. ok (p ∷ r))
            (collect_sound ps h.1) (λ r hr. (segment, hr)))
  ]
]

pub collect-AreSegments :
    (segments : List Text) → AreSegments segments → collect_segments segments ≡ ok segments
unfolding collect_segments
collect-AreSegments [] h = refl
collect-AreSegments (s ∷ r) h = ground (arith, collect-AreSegments r h.1)
