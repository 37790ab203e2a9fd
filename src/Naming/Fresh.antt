-- ===== src/Naming/Fresh.antt =====
-- A name that is chosen for a new note or a copy is free.
use tactile.Base.{
  ℕ, zero, suc, ◌+◌, ◌≤◌, Bool, true, false, ◌≡◌, refl, sym, ap, ◌∙◌, some, List, [], ◌∷◌, ◌++◌,
  Text, codes, text_eq, text_eq_iff, length, length-map, length-append, map, any, ◌==◌, ==_iff,
  arith, to_decimal, to_decimal-injective, first_free, first_free_lem, includes, Bool-cases,
  Option-cases, inl, inr,
}
use tactile.Naming.{
  matches, number_between, free_index, used_indexes, copy_prefix, copy_suffix, copy_name,
  pattern_same, untitled_items, untitled_number, max_number, untitled_name, try_names,
  get_next_untitled_name,
}
use tactile.Naming.Numbers.{number_between-to_decimal}

includes-to_decimal :
    (used : List ℕ) (k : ℕ) → includes (map to_decimal used) (to_decimal k) ≡ any (λ u. u == k) used
includes-to_decimal [] k = refl
includes-to_decimal (u ∷ used) k =
    let same : text_eq (to_decimal u) (to_decimal k) ≡ (u == k) = decide (u == k) refl in
    rw (same, includes-to_decimal used k) refl
  where
    decide : (b : Bool) → (u == k) ≡ b → text_eq (to_decimal u) (to_decimal k) ≡ b
    decide true e = (text_eq_iff (to_decimal u) (to_decimal k)).1 (ap to_decimal ((==_iff u k).0 e))
    decide false e = elim (Bool-cases (text_eq (to_decimal u) (to_decimal k))) [
      | inr h ↦ h
      | inl h ↦
          let one = to_decimal-injective u k ((text_eq_iff (to_decimal u) (to_decimal k)).0 h) in
          absurd (cc (e, (==_iff u k).1 one))
    ]

free_index_lem : (used : List ℕ) → any (λ u. u == free_index used) used ≡ false
unfolding free_index
free_index_lem used =
    let texts = map to_decimal used in
    let index = first_free (suc (length texts)) (λ k. includes texts (to_decimal k)) 1 in
    let same : index ≡ first_free (suc (length used)) (λ k. any (λ u. u == k) used) 1 =
      ap (λ n. first_free (suc n) (λ k. includes texts (to_decimal k)) 1)
        (length-map {0, 0} used to_decimal)
      ∙ λ i. first_free (suc (length used)) (λ k. includes-to_decimal used k i) 1 in
    ap (λ k. any (λ u. u == k) used) (sym same)
    ∙ sym (includes-to_decimal used index)
    ∙ first_free_lem to_decimal to_decimal-injective texts 1

used_indexes_lem :
    (same : ℕ → ℕ → Bool) (name ext file : Text) (files : List Text) (n : ℕ)
    → includes files file ≡ true
    → number_between same (copy_prefix name) (copy_suffix ext) file ≡ some n
    → any (λ u. u == n) (used_indexes same name ext files) ≡ true
unfolding used_indexes
used_indexes_lem same name ext file [] n h e = absurd (cc h)
used_indexes_lem same name ext file (x ∷ files) n h e = elim (Bool-cases (text_eq x file)) [
  | inl s ↦
      let one : number_between same (copy_prefix name) (copy_suffix ext) x ≡ some n =
        ap (number_between same (copy_prefix name) (copy_suffix ext)) ((text_eq_iff x file).0 s)
        ∙ e in
      rw (one, any) (ground (arith, (==_iff n n).1 refl))
  | inr s ↦
      let rest = used_indexes_lem same name ext file files n (ground arith) e in
      elim (Option-cases (number_between same (copy_prefix name) (copy_suffix ext) x)) [
        | inl o ↦ rw (o, any) rest
        | inr (m, o) ↦ rw (o, any) (ground (arith, rest))
      ]
]

-- The name of a copy is that of no file in the directory; the loop that looks for its index ends.
pub copy_name_lem :
    (same : ℕ → ℕ → Bool)
    → ((c : ℕ) → same c c ≡ true)
    → (name ext : Text) (files : List Text) → includes files (copy_name same name ext files) ≡ false
unfolding copy_name
copy_name_lem same r name ext files =
    let used = used_indexes same name ext files in
    let index = free_index used in
    let copy = copy_prefix name ++ (to_decimal index ++ copy_suffix ext) in
    elim (Bool-cases (includes files copy)) [
      | inr h ↦ h
      | inl h ↦
          let read = number_between-to_decimal same r (copy_prefix name) (copy_suffix ext) index in
          absurd (cc (used_indexes_lem same name ext copy files index h read, free_index_lem used))
    ]

matches-length : (same : ℕ → ℕ → Bool) (a b : Text) → matches same a b ≡ true → length a ≡ length b
unfolding matches
matches-length same [] [] h = refl
matches-length same [] (y ∷ b) h = absurd (cc h)
matches-length same (x ∷ a) [] h = absurd (cc h)
matches-length same (x ∷ a) (y ∷ b) h = ground (arith, matches-length same a b)

module _ (to_lower : Text → Text) (same : ℕ → ℕ → Bool) where
  max_number_lem :
      (prefix extension name : Text) (names : List Text) (n : ℕ)
      → includes names name ≡ true
      → untitled_number to_lower same prefix extension name ≡ some n
      → n ≤ max_number to_lower same prefix extension names
  unfolding max_number
  max_number_lem prefix extension name [] n h e = absurd (cc h)
  max_number_lem prefix extension name (x ∷ names) n h e = elim (Bool-cases (text_eq x name)) [
    | inl s ↦
        let one : untitled_number to_lower same prefix extension x ≡ some n =
          ap (untitled_number to_lower same prefix extension) ((text_eq_iff x name).0 s) ∙ e in
        rw (one, max_number) (omega arith)
    | inr s ↦
        let rest = max_number_lem prefix extension name names n (ground arith) e in
        elim (Option-cases (untitled_number to_lower same prefix extension x)) [
          | inl o ↦ rw (o, max_number) rest
          | inr (m, o) ↦ rw (o, max_number) (omega (arith, rest))
        ]
  ]

  untitled_number-untitled_name :
      ((c : ℕ) → same c c ≡ true)
      → (prefix extension : Text) (i : ℕ)
      → untitled_number to_lower same prefix extension
          (untitled_name to_lower same prefix extension (suc i))
        ≡ some (suc i)
  unfolding untitled_number untitled_name
  untitled_number-untitled_name r prefix extension i =
      let name = (prefix ++ codes " ") ++ (to_decimal (suc i) ++ extension) in
      rw (longer (matches (pattern_same same) (prefix ++ extension) name) refl) (
        number_between-to_decimal (pattern_same same)
          (λ c. unfold pattern_same in ground (arith, r c)) (prefix ++ codes " ") extension (suc i))
    where
      longer :
          (b : Bool)
          → matches
              (pattern_same same)
              (prefix ++ extension)
              ((prefix ++ codes " ") ++ (to_decimal (suc i) ++ extension))
            ≡ b
          → matches
              (pattern_same same)
              (prefix ++ extension)
              ((prefix ++ codes " ") ++ (to_decimal (suc i) ++ extension))
            ≡ false
      longer false e = e
      longer true e = absurd (
          omega (
            arith,
            matches-length (pattern_same same) (prefix ++ extension)
                ((prefix ++ codes " ") ++ (to_decimal (suc i) ++ extension)) e,
            length-append {0} prefix extension,
            length-append {0} prefix (codes " "),
            length-append {0} (to_decimal (suc i)) extension,
            length-append {0} (prefix ++ codes " ") (to_decimal (suc i) ++ extension),
          ))

  try_names_lem :
      (rounds i : ℕ) (prefix extension : Text) (items : List Text) (last : Text)
      → includes items last ≡ false
      → includes items (try_names to_lower same rounds i prefix extension items last) ≡ false
  unfolding try_names
  try_names_lem zero i prefix extension items last h = h
  try_names_lem (suc rounds) i prefix extension items last h =
      elim (Bool-cases (includes items (untitled_name to_lower same prefix extension i))) [
        | inl e ↦ rw e (try_names_lem rounds (suc i) prefix extension items last h)
        | inr e ↦ rw e e
      ]

  -- The name of a new note or folder is that of no file whose name starts with the prefix and ends
  -- with the extension in any case.
  pub get_next_untitled_name_lem :
      ((c : ℕ) → same c c ≡ true)
      → (files : List Text) (prefix extension : Text)
      → includes
          (untitled_items to_lower same prefix extension files)
          (get_next_untitled_name to_lower same files prefix extension)
        ≡ false
  unfolding get_next_untitled_name
  get_next_untitled_name_lem r files prefix extension =
      let items = untitled_items to_lower same prefix extension files in
      let number = max_number to_lower same prefix extension items in
      let last = untitled_name to_lower same prefix extension (suc number) in
      try_names_lem (number + 2) 0 prefix extension items last
        (elim (Bool-cases (includes items last)) [
          | inr h ↦ h
          | inl h ↦ absurd (
              omega (
                arith,
                max_number_lem prefix extension last items (suc number) h
                    (untitled_number-untitled_name r prefix extension number),
              ))
        ])
