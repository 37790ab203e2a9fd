-- ===== src/Paths/Known.antt =====
-- The path functions on paths that are already normal.
use tactile.Base.{
  ◌≡◌, refl, sym, ap, ◌∙◌, ◌⊎◌, inl, inr, true, List, [], ◌∷◌, ◌++◌, append_assoc, append-nil, Text,
  ok, text_eq, join,
}
use tactile.Paths.{
  slash, from_segments, normalize_path, parent_path, parent_of, base_name, base_of, is_root,
  is_under, under, path_segments,
}
use tactile.Paths.Segments.{IsSegment, AreSegments}
use tactile.Paths.Normal.{
  IsNormal, normalize_path-from_segments, parent_of-snoc, path_segments-from_segments,
}
use tactile.Paths.Under.{Extends, under_sound, under_complete}

abbrev pub root : Text
root = slash ∷ []

module _ {p : Text} (n : IsNormal p) where
  pub normalize_path_known : normalize_path p ≡ ok p
  normalize_path_known = rw (n.spelled) (normalize_path-from_segments n.parts n.valid)

  pub is_root_known : is_root p ≡ ok (text_eq p root)
  unfolding is_root
  is_root_known = rw normalize_path_known

  pub parent_path_known : parent_path p ≡ ok (parent_of p)
  unfolding parent_path
  parent_path_known = rw normalize_path_known

  pub base_name_known : base_name p ≡ ok (base_of p)
  unfolding base_name
  base_name_known = rw normalize_path_known

  pub path_segments_known : path_segments p ≡ ok n.parts
  path_segments_known = ap path_segments n.spelled ∙ path_segments-from_segments n.parts n.valid

pub is_under_known : {p q : Text} → IsNormal p → IsNormal q → is_under p q ≡ ok (under p q)
unfolding is_under
is_under_known n m = rw (normalize_path_known n, normalize_path_known m)

-- A list is empty, or has a last element.
pub unsnoc : (r : List Text) → (r ≡ []) ⊎ ((i : List Text) × (l : Text) × (r ≡ i ++ l ∷ []))
unsnoc [] = inl refl
unsnoc (x ∷ r) = elim (unsnoc r) [
  | inl e ↦ inr ([], x, ap (λ t. x ∷ t) e)
  | inr (i, l, e) ↦ inr (x ∷ i, l, ap (λ t. x ∷ t) e)
]

pub All-init : (i r : List Text) → AreSegments (i ++ r) → AreSegments i
All-init [] r h = tt
All-init (x ∷ i) r h = (h.0, All-init i r h.1)

pub All-last : (i r : List Text) → AreSegments (i ++ r) → AreSegments r
All-last [] r h = h
All-last (x ∷ i) r h = All-last i r h.1

-- A normal path is the root, or a name in a normal directory.
pub record IsChild (p : Text) : Type 0 where
  pub above : List Text
  pub name : Text
  pub above_valid : AreSegments above
  pub name_valid : IsSegment name
  pub spelled : p ≡ from_segments (above ++ name ∷ [])

pub root_or_IsChild : {p : Text} → IsNormal p → (p ≡ root) ⊎ IsChild p
unfolding join
root_or_IsChild n = elim (unsnoc n.parts) [
  | inl e ↦ inl (n.spelled ∙ ap from_segments e)
  | inr (i, l, e) ↦
      let valid : AreSegments (i ++ l ∷ []) = rw e at n.valid in
      inr (record {
        above = i;
        name = l;
        above_valid = All-init i (l ∷ []) valid;
        name_valid = (All-last i (l ∷ []) valid).0;
        spelled = n.spelled ∙ ap from_segments e;
      })
]

unfoldable pub IsNormal-segments : (r : List Text) → AreSegments r → IsNormal (from_segments r)
IsNormal-segments r h = record { parts = r; valid = h; spelled = refl }

pub IsChild-parent_of : {p : Text} (c : IsChild p) → parent_of p ≡ from_segments c.above
IsChild-parent_of c = ap parent_of c.spelled ∙ parent_of-snoc c.above c.name c.name_valid

pub parent_of-root : parent_of root ≡ root
unfolding parent_of
parent_of-root = refl

pub parent_of-IsNormal : {p : Text} → IsNormal p → IsNormal (parent_of p)
parent_of-IsNormal {p} n = elim (root_or_IsChild n) [
  | inl e ↦ rw e (rw parent_of-root (rw e at n))
  | inr c ↦ rw (IsChild-parent_of c) (IsNormal-segments c.above c.above_valid)
]

-- What is under a path has its segments in front.
pub under_iff :
    {p q : Text} (n : IsNormal p) (m : IsNormal q)
    → (under p q ≡ true → Extends n.parts m.parts) × (Extends n.parts m.parts → under p q ≡ true)
under_iff {p} {q} n m = (
  λ h. under_sound n.parts m.parts n.valid m.valid (
      ap (λ t. under t (from_segments m.parts)) (sym n.spelled) ∙ ap (under p) (sym m.spelled) ∙ h),
  λ e.
      ap (λ t. under t q) n.spelled
      ∙ ap (under (from_segments n.parts)) m.spelled
      ∙ ap (λ t. under (from_segments t) (from_segments m.parts)) e.1
      ∙ under_complete m.parts e.0,
)

-- Whatever holds the parent holds the child.
pub under_parent :
    {p q : Text} → IsNormal p → IsNormal q → under (parent_of p) q ≡ true → under p q ≡ true
unfolding IsNormal-segments
under_parent {p} {q} n m h = elim (root_or_IsChild n) [
  | inl e ↦ ap (λ t. under t q) (e ∙ sym (ap parent_of e ∙ parent_of-root)) ∙ h
  | inr c ↦
      let above = IsNormal-segments c.above c.above_valid in
      let (rest, e) = (under_iff above m).0 (ap (λ t. under t q) (sym (IsChild-parent_of c)) ∙ h) in
      ap (λ t. under t q) c.spelled
      ∙ ap (under (from_segments (c.above ++ c.name ∷ []))) m.spelled
      ∙ ap (λ t. under (from_segments t) (from_segments m.parts))
          (ap (λ t. t ++ c.name ∷ []) e ∙ append_assoc m.parts rest (c.name ∷ []))
      ∙ under_complete m.parts (rest ++ c.name ∷ [])
]

pub under_self : {p : Text} → IsNormal p → under p p ≡ true
under_self n = (under_iff n n).1 ([], sym (append-nil n.parts))
