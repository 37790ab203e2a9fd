-- ===== src/Paths/Normal.antt =====
-- `normalizePath`, `pathSegments`, `parentPath` and `baseName` against the list of segments.
use tactile.Base.{
  ℕ, suc, ◌≡◌, refl, sym, ap, ◌∙◌, false, List, [], ◌∷◌, ◌++◌, append_assoc, arith, Text, ok, some,
  none, text_eq, split, join, Lacks, split-join, split-append, All-Lacks, All, All-append, Ensures,
  Ensures-ok, Ensures-bind, length, take, drop,
}
use tactile.Paths.{
  slash, collect_segments, from_segments, normalize_path, path_segments, parent_path, base_name,
  last_index_of, parent_of, base_of,
}
use tactile.Paths.Segments.{IsSegment, AreSegments, collect_sound, collect-AreSegments}

-- A text that is '/' followed by the segments of a list.
pub record IsNormal (p : Text) : Type 0 where
  pub parts : List Text
  pub valid : AreSegments parts
  pub spelled : p ≡ from_segments parts

-- What `normalizePath` returns is normal.
pub normalize_path-IsNormal : (p : Text) → Ensures IsNormal (normalize_path p)
unfolding normalize_path
normalize_path-IsNormal [] = tt
normalize_path-IsNormal (c ∷ cs) =
    Ensures-bind AreSegments IsNormal (collect_segments (split slash (c ∷ cs)))
      (λ r. ok (from_segments r)) (collect_sound _ (All-Lacks slash (c ∷ cs)))
      (λ r hr. record { parts = r; valid = hr; spelled = refl })

pub Lacks-All : (r : List Text) → AreSegments r → All (Lacks slash) r
Lacks-All [] h = tt
Lacks-All (s ∷ r) h = (h.0.lacks, Lacks-All r h.1)

-- The segments of a normal path, behind the empty part before the leading slash.
pub split-from_segments :
    (s : Text) (r : List Text)
    → AreSegments (s ∷ r)
    → split slash (from_segments (s ∷ r)) ≡ [] ∷ s ∷ r
split-from_segments s r h =
    split-append slash [] (join slash (s ∷ r)) tt
    ∙ ap (λ t. [] ∷ t) (split-join slash s r (Lacks-All (s ∷ r) h))

skip_first : (r : List Text) → AreSegments r → collect_segments ([] ∷ r) ≡ ok r
unfolding collect_segments text_eq
skip_first r h = collect-AreSegments r h

pub normalize_path-from_segments :
    (r : List Text) → AreSegments r → normalize_path (from_segments r) ≡ ok (from_segments r)
unfolding normalize_path
normalize_path-from_segments [] h = unfold split join collect_segments text_eq in refl
normalize_path-from_segments (s ∷ r) h = rw (split-from_segments s r h) (rw (skip_first (s ∷ r) h))

-- Normalising twice is normalising once.
pub normalize_path_idem : (p : Text) {n : Text} → normalize_path p ≡ ok n → normalize_path n ≡ ok n
normalize_path_idem p {n} e =
    let normal = Ensures-ok IsNormal (normalize_path p) (normalize_path-IsNormal p) e in
    rw (normal.spelled) (normalize_path-from_segments normal.parts normal.valid)

-- A first segment makes the joined text nonempty.
pub join-ne-nil : (s : Text) (r : List Text) → IsSegment s → text_eq (join slash (s ∷ r)) [] ≡ false
unfolding join text_eq
join-ne-nil s [] h = h.not_empty
join-ne-nil [] (t ∷ r) h = refl
join-ne-nil (c ∷ s) (t ∷ r) h = refl

pub not_root :
    (s : Text) (r : List Text) → IsSegment s → text_eq (from_segments (s ∷ r)) (slash ∷ []) ≡ false
unfolding text_eq
not_root s r h = join-ne-nil s r h

-- `pathSegments` reads the segments back.
pub path_segments-from_segments :
    (r : List Text) → AreSegments r → path_segments (from_segments r) ≡ ok r
unfolding path_segments
path_segments-from_segments [] h = unfold join normalize_path collect_segments split text_eq in refl
path_segments-from_segments (s ∷ r) h =
    rw (normalize_path-from_segments (s ∷ r) h, not_root s r h.0)
      (ap ok (split-join slash s r (Lacks-All (s ∷ r) h)))

last_index_of-Lacks : (c : ℕ) (q : Text) → Lacks c q → last_index_of c q ≡ none
unfolding last_index_of
last_index_of-Lacks c [] h = refl
last_index_of-Lacks c (x ∷ xs) h = ground (arith, last_index_of-Lacks c xs h.1)

-- The last separator is the one behind which no other stands.
pub last_index_of-append :
    (c : ℕ) (p q : Text) → Lacks c q → last_index_of c (p ++ c ∷ q) ≡ some (length p)
unfolding last_index_of
last_index_of-append c [] q h = ground (arith, last_index_of-Lacks c q h)
last_index_of-append c (x ∷ p) q h = ground (arith, last_index_of-append c p q h)

take-length : (p q : Text) → take (length p) (p ++ q) ≡ p
take-length [] q = refl
take-length (x ∷ p) q = ap (λ t. x ∷ t) (take-length p q)

drop-suc-length : (c : ℕ) (p q : Text) → drop (suc (length p)) (p ++ c ∷ q) ≡ q
drop-suc-length c [] q = refl
drop-suc-length c (x ∷ p) q = drop-suc-length c p q

-- The text of a path with one more segment.
pub from_segments-snoc :
    (d : Text) (r : List Text) (s : Text)
    → from_segments ((d ∷ r) ++ s ∷ []) ≡ from_segments (d ∷ r) ++ slash ∷ s
unfolding join
from_segments-snoc d [] s = refl
from_segments-snoc d (e ∷ r) s =
    ap (λ t. slash ∷ (d ++ t)) (from_segments-snoc e r s)
    ∙ ap (λ t. slash ∷ t) (sym (append_assoc d (from_segments (e ∷ r)) (slash ∷ s)))

AreSegments-snoc :
    (r : List Text) (s : Text) → AreSegments r → IsSegment s → AreSegments (r ++ s ∷ [])
AreSegments-snoc r s hr hs = All-append IsSegment r (s ∷ []) hr (hs, tt)

parent_of-append : (c : ℕ) (p s : Text) → Lacks slash s → parent_of (c ∷ (p ++ slash ∷ s)) ≡ c ∷ p
unfolding parent_of
parent_of-append c p s h =
    rw (last_index_of-append slash (c ∷ p) s h, parent_of) (take-length (c ∷ p) (slash ∷ s))

base_of-append : (p s : Text) → Lacks slash s → base_of (p ++ slash ∷ s) ≡ s
unfolding base_of
base_of-append p s h = rw (last_index_of-append slash p s h, base_of) (drop-suc-length slash p s)

-- The parent and the name of a path with one more segment.
pub parent_of-snoc :
    (r : List Text) (s : Text)
    → IsSegment s
    → parent_of (from_segments (r ++ s ∷ [])) ≡ from_segments r
unfolding join
parent_of-snoc [] s hs =
    unfold parent_of in rw (last_index_of-append slash [] s hs.lacks, parent_of) refl
parent_of-snoc (d ∷ r) s hs =
    ap parent_of (from_segments-snoc d r s) ∙ parent_of-append slash (join slash (d ∷ r)) s hs.lacks

pub base_of-snoc :
    (r : List Text) (s : Text) → IsSegment s → base_of (from_segments (r ++ s ∷ [])) ≡ s
unfolding join
base_of-snoc [] s hs = base_of-append [] s hs.lacks
base_of-snoc (d ∷ r) s hs =
    ap base_of (from_segments-snoc d r s) ∙ base_of-append (from_segments (d ∷ r)) s hs.lacks

-- `parentPath` and `baseName` take apart what joining a name to a directory puts together.
pub parent_base-join :
    (r : List Text) (s : Text)
    → AreSegments r
    → IsSegment s
    → (parent_path (from_segments (r ++ s ∷ [])) ≡ ok (from_segments r))
      × (base_name (from_segments (r ++ s ∷ [])) ≡ ok s)
unfolding parent_path base_name
parent_base-join r s hr hs =
    let n = normalize_path-from_segments (r ++ s ∷ []) (AreSegments-snoc r s hr hs) in
    (rw n (ap ok (parent_of-snoc r s hs)), rw n (ap ok (base_of-snoc r s hs)))
