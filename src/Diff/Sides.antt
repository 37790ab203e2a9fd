-- ===== src/Diff/Sides.antt =====
-- The lines of a diff spell both documents, each line under its number.
use tactile.Base.{
  ℕ, suc, ◌+◌, ◌-◌, ◌*◌, ◌≤◌, min, ◌≡◌, refl, sym, ap, ◌∙◌, Option, some, none, List, [], ◌∷◌, ◌++◌,
  map, append-nil, arith, Text, text_eq, text_eq_iff, length, take, drop, ltb, Bool-cases, inl, inr,
  length-take,
}
use tactile.Diff.{
  DiffLine, Op, same_lines, deleted_lines, added_lines, shifted, number_line, lcs_diff, table,
  diff_middle, max_cells, common_prefix, common_suffix, slice, diff_documents, diff_lines, lines_of,
}
use tactile.Diff.Walk.{numbered, add_numbered, enumerate, a_side, b_side, a_side-walk, b_side-walk}
use tactile.Diff.Trim.{take-common_prefix, common_prefix-le, suffix_from, pieces, length-slice}

abbrev pub old_side : List DiffLine → List (ℕ × Text)
old_side = numbered (λ l. l.old_number) (λ l. l.text)

abbrev pub new_side : List DiffLine → List (ℕ × Text)
new_side = numbered (λ l. l.new_number) (λ l. l.text)

numbered-append {ℓ} :
    {A : Type ℓ} (number : A → Option ℕ) (text : A → Text) (xs ys : List A)
    → numbered number text (xs ++ ys) ≡ numbered number text xs ++ numbered number text ys
numbered-append number text [] ys = refl
numbered-append number text (x ∷ xs) ys =
    ap (add_numbered (number x) (text x)) (numbered-append number text xs ys)
    ∙ first (number x) (text x) (numbered number text xs) (numbered number text ys)
  where
    first :
        (n : Option ℕ) (t : Text) (r s : List (ℕ × Text))
        → add_numbered n t (r ++ s) ≡ add_numbered n t r ++ s
    first (some n) t r s = refl
    first none t r s = refl

enumerate-append :
    (i : ℕ) (xs ys : List Text)
    → enumerate i (xs ++ ys) ≡ enumerate i xs ++ enumerate (i + length xs) ys
enumerate-append i [] ys = ap (λ k. enumerate k ys) (omega arith)
enumerate-append i (x ∷ xs) ys =
    ap (λ r. (i, x) ∷ r)
      (enumerate-append (suc i) xs ys
        ∙ ap (λ k. enumerate (suc i) xs ++ enumerate k ys) (omega arith))

old-same_lines : (xs : List Text) (i j : ℕ) → old_side (same_lines xs i j) ≡ enumerate i xs
unfolding same_lines
old-same_lines [] i j = refl
old-same_lines (x ∷ xs) i j = ap (λ r. (i, x) ∷ r) (old-same_lines xs (suc i) (suc j))

new-same_lines : (xs : List Text) (i j : ℕ) → new_side (same_lines xs i j) ≡ enumerate j xs
unfolding same_lines
new-same_lines [] i j = refl
new-same_lines (x ∷ xs) i j = ap (λ r. (j, x) ∷ r) (new-same_lines xs (suc i) (suc j))

old-deleted_lines : (xs : List Text) (i : ℕ) → old_side (deleted_lines xs i) ≡ enumerate i xs
unfolding deleted_lines
old-deleted_lines [] i = refl
old-deleted_lines (x ∷ xs) i = ap (λ r. (i, x) ∷ r) (old-deleted_lines xs (suc i))

new-deleted_lines : (xs : List Text) (i : ℕ) → new_side (deleted_lines xs i) ≡ []
unfolding deleted_lines
new-deleted_lines [] i = refl
new-deleted_lines (x ∷ xs) i = new-deleted_lines xs (suc i)

old-added_lines : (xs : List Text) (j : ℕ) → old_side (added_lines xs j) ≡ []
unfolding added_lines
old-added_lines [] j = refl
old-added_lines (x ∷ xs) j = old-added_lines xs (suc j)

new-added_lines : (xs : List Text) (j : ℕ) → new_side (added_lines xs j) ≡ enumerate j xs
unfolding added_lines
new-added_lines [] j = refl
new-added_lines (x ∷ xs) j = ap (λ r. (j, x) ∷ r) (new-added_lines xs (suc j))

shift : ℕ → ℕ × Text → ℕ × Text
shift p (i, t) = (p + i + 1, t)

shift-enumerate :
    (p i : ℕ) (xs : List Text) → map (shift p) (enumerate i xs) ≡ enumerate (p + i + 1) xs
unfolding shift
shift-enumerate p i [] = refl
shift-enumerate p i (x ∷ xs) =
    ap (λ r. (p + i + 1, x) ∷ r)
      (shift-enumerate p (suc i) xs ∙ ap (λ k. enumerate k xs) (omega arith))

shift-add_numbered :
    (p : ℕ) (n : Option ℕ) (t : Text) (r : List (ℕ × Text))
    → add_numbered (shifted p n) t (map (shift p) r) ≡ map (shift p) (add_numbered n t r)
unfolding shift
shift-add_numbered p (some n) t r = refl
shift-add_numbered p none t r = refl

old-number_line :
    (p : ℕ) (ops : List Op) → old_side (map (number_line p) ops) ≡ map (shift p) (a_side ops)
unfolding number_line
old-number_line p [] = refl
old-number_line p (o ∷ ops) =
    ap (add_numbered (shifted p o.a_index) o.text) (old-number_line p ops)
    ∙ shift-add_numbered p o.a_index o.text (a_side ops)

new-number_line :
    (p : ℕ) (ops : List Op) → new_side (map (number_line p) ops) ≡ map (shift p) (b_side ops)
unfolding number_line
new-number_line p [] = refl
new-number_line p (o ∷ ops) =
    ap (add_numbered (shifted p o.b_index) o.text) (new-number_line p ops)
    ∙ shift-add_numbered p o.b_index o.text (b_side ops)

-- Whichever way the middle is compared, its lines spell both middles.
old-diff_middle :
    (p : ℕ) (a b : List Text) → old_side (diff_middle p a b).lines ≡ enumerate (p + 1) a
unfolding diff_middle
old-diff_middle p a b = elim (Bool-cases (ltb max_cells (length a * length b))) [
  | inl big ↦ rw big (
      numbered-append _ _ (deleted_lines a (p + 1)) (added_lines b (p + 1))
      ∙ rw (old-deleted_lines, old-added_lines) (append-nil _))
  | inr small ↦ rw small (
      unfold lcs_diff in
      old-number_line p (lcs_diff a b)
      ∙ ap (map (shift p)) (a_side-walk (table a b) 0 a 0 b)
      ∙ shift-enumerate p 0 a
      ∙ ap (λ k. enumerate k a) (omega arith))
]

new-diff_middle :
    (p : ℕ) (a b : List Text) → new_side (diff_middle p a b).lines ≡ enumerate (p + 1) b
unfolding diff_middle
new-diff_middle p a b = elim (Bool-cases (ltb max_cells (length a * length b))) [
  | inl big ↦ rw big (
      numbered-append _ _ (deleted_lines a (p + 1)) (added_lines b (p + 1))
      ∙ rw (new-deleted_lines, new-added_lines) refl)
  | inr small ↦ rw small (
      unfold lcs_diff in
      new-number_line p (lcs_diff a b)
      ∙ ap (map (shift p)) (b_side-walk (table a b) 0 a 0 b)
      ∙ shift-enumerate p 0 b
      ∙ ap (λ k. enumerate k b) (omega arith))
]

-- The numbering of a document from those of its three pieces.
enumerate_pieces :
    (xs : List Text) (p s : ℕ)
    → p + s ≤ length xs
    → enumerate 1 (take p xs)
        ++ (enumerate (p + 1) (slice xs p (length xs - s))
            ++ enumerate (length xs - s + 1) (drop (length xs - s) xs))
      ≡ enumerate 1 xs
enumerate_pieces xs p s h =
    let e : ℕ = length xs - s in
    let n : 1 + length (take p xs) ≡ p + 1 = omega (arith, length-take {0} p xs) in
    let m : p + 1 + length (slice xs p e) ≡ e + 1 =
      omega (arith, length-slice xs p e (omega arith) (omega arith)) in
    let inner =
      enumerate-append (p + 1) (slice xs p e) (drop e xs)
      ∙ ap (λ k. enumerate (p + 1) (slice xs p e) ++ enumerate k (drop e xs)) m in
    let outer =
      enumerate-append 1 (take p xs) (slice xs p e ++ drop e xs)
      ∙ ap (λ k. enumerate 1 (take p xs) ++ enumerate k (slice xs p e ++ drop e xs)) n
      ∙ ap (λ r. enumerate 1 (take p xs) ++ r) inner in
    sym outer ∙ ap (enumerate 1) (pieces xs p e (omega arith))

ap₃_append :
    {a a' b b' c c' : List (ℕ × Text)} → a ≡ a' → b ≡ b' → c ≡ c' → a ++ (b ++ c) ≡ a' ++ (b' ++ c')
ap₃_append p q r = λ i. p i ++ (q i ++ r i)

three_pieces {ℓ} :
    {A : Type ℓ} (number : A → Option ℕ) (text : A → Text) (xs ys zs : List A)
    → numbered number text (xs ++ (ys ++ zs))
      ≡ numbered number text xs ++ (numbered number text ys ++ numbered number text zs)
three_pieces number text xs ys zs =
    numbered-append number text xs (ys ++ zs)
    ∙ ap (λ r. numbered number text xs ++ r) (numbered-append number text ys zs)

-- The two sides of the result for different documents.
pub old-diff_documents : (a b : List Text) → old_side (diff_documents a b).lines ≡ enumerate 1 a
unfolding diff_documents
old-diff_documents a b =
    let p = common_prefix a b in
    let s = common_suffix a b (min (length a - p) (length b - p)) 0 in
    let fits = (suffix_from a b p (common_prefix-le a b).0 (common_prefix-le a b).1).fits in
    let mid = diff_middle p (slice a p (length a - s)) (slice b p (length b - s)) in
    let tail = drop (length a - s) a in
    let le : p + s ≤ length a = omega (arith, fits, common_prefix-le a b) in
    three_pieces _ _ (same_lines (take p a) 1 1) mid.lines
      (same_lines tail (length a - s + 1) (length b - s + 1))
    ∙ ap₃_append (old-same_lines (take p a) 1 1)
        (old-diff_middle p (slice a p (length a - s)) (slice b p (length b - s)))
        (old-same_lines tail (length a - s + 1) (length b - s + 1))
    ∙ enumerate_pieces a p s le

pub new-diff_documents : (a b : List Text) → new_side (diff_documents a b).lines ≡ enumerate 1 b
unfolding diff_documents
new-diff_documents a b =
    let p = common_prefix a b in
    let s = common_suffix a b (min (length a - p) (length b - p)) 0 in
    let found = suffix_from a b p (common_prefix-le a b).0 (common_prefix-le a b).1 in
    let mid = diff_middle p (slice a p (length a - s)) (slice b p (length b - s)) in
    let tail = drop (length a - s) a in
    let le : p + s ≤ length b = omega (arith, found.fits, common_prefix-le a b) in
    three_pieces _ _ (same_lines (take p a) 1 1) mid.lines
      (same_lines tail (length a - s + 1) (length b - s + 1))
    ∙ ap₃_append (new-same_lines (take p a) 1 1 ∙ ap (enumerate 1) (take-common_prefix a b))
        (new-diff_middle p (slice a p (length a - s)) (slice b p (length b - s)))
        (new-same_lines tail (length a - s + 1) (length b - s + 1)
          ∙ ap (enumerate (length b - s + 1)) found.ends)
    ∙ enumerate_pieces b p s le

-- The old numbers of a diff, with their texts, are the lines of the old text numbered from 1, and
-- the new numbers those of the new text.
pub sides-diff_lines :
    (old_text new_text : Text)
    → (old_side (diff_lines old_text new_text).lines ≡ enumerate 1 (lines_of old_text))
      × (new_side (diff_lines old_text new_text).lines ≡ enumerate 1 (lines_of new_text))
unfolding diff_lines
sides-diff_lines old_text new_text = elim (Bool-cases (text_eq old_text new_text)) [
  | inl e ↦
      let one = (text_eq_iff old_text new_text).0 e in
      rw e (
        old-same_lines (lines_of old_text) 1 1,
        new-same_lines (lines_of old_text) 1 1 ∙ ap (λ t. enumerate 1 (lines_of t)) one,
      )
  | inr e ↦ rw e (
    old-diff_documents (lines_of old_text) (lines_of new_text),
    new-diff_documents (lines_of old_text) (lines_of new_text),
  )
]
