-- ===== src/Zip/Names.antt =====
-- The names in an archive are different.
use tactile.Base.{
  ℕ, false, ◌≡◌, List, [], ◌∷◌, ◌++◌, Text, text_eq, codes, take, drop, All, AllDistinct, includes,
  first_free_lem, to_decimal, to_decimal-injective, append_cancel_left, append_cancel_right,
  Bool-cases, inl, inr, arith,
}
use tactile.Zip.{
  ZipEntry, stem_end, numbered, unique_name, assign_names, or_untitled, sanitize_name,
}

numbered-injective : (name : Text) (i j : ℕ) → numbered name i ≡ numbered name j → i ≡ j
unfolding numbered
numbered-injective name i j h =
    let rest = codes ")" ++ drop (stem_end name) name in
    to_decimal-injective i j (
      append_cancel_right (to_decimal i) (to_decimal j) rest (
        append_cancel_left (codes " (") (to_decimal i ++ rest) (to_decimal j ++ rest) (
          append_cancel_left (take (stem_end name) name) (codes " (" ++ (to_decimal i ++ rest))
            (codes " (" ++ (to_decimal j ++ rest)) h)))

unique_name-new : (used : List Text) (name : Text) → includes used (unique_name used name) ≡ false
unfolding unique_name
unique_name-new used name = elim (Bool-cases (includes used name)) [
  | inl e ↦ rw e (first_free_lem (numbered name) (numbered-injective name) used 1)
  | inr e ↦ rw e e
]

-- New names are not in use, nor the name that was added.
apart :
    (name : Text) (used names : List Text)
    → All (λ n. includes (name ∷ used) n ≡ false) names
    → All (λ n. text_eq name n ≡ false) names × All (λ n. includes used n ≡ false) names
apart name used [] h = (tt, tt)
apart name used (n ∷ names) h =
    let rest = apart name used names h.1 in ((ground arith, rest.0), (ground arith, rest.1))

assign_names_new :
    (used : List Text) (es : List ZipEntry)
    → All (λ n. includes used n ≡ false) (assign_names used es) × AllDistinct (assign_names used es)
unfolding assign_names
assign_names_new used [] = (tt, tt)
assign_names_new used (e ∷ es) =
    let name = unique_name used (or_untitled (sanitize_name e.name)) in
    let rest = assign_names_new (name ∷ used) es in
    let both = apart name used (assign_names (name ∷ used) es) rest.0 in
    ((unique_name-new used (or_untitled (sanitize_name e.name)), both.1), (both.0, rest.1))

-- The names that the entries of an archive get are different from one another; the loop that numbers
-- a name ends.
pub AllDistinct-assign_names : (es : List ZipEntry) → AllDistinct (assign_names [] es)
AllDistinct-assign_names es = (assign_names_new [] es).1
