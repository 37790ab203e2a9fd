-- ===== src/Naming.antt =====
-- The names that new notes, folders and copies get: `getNextUntitledName` of
-- packages/core/src/utils/files.ts, and the copy index of `duplicateNote` in
-- packages/core/src/api/notes.ts.
--
-- `to_lower` stands for the runtime's `toLowerCase`, and `same` for its comparison of two characters
-- in a regular expression with the flag `i`. A number that is read from a name is exact, where
-- `parseInt` gives a double: the two agree below 2 ^ 53.
pub mod Numbers
pub mod Fresh
use tactile.Base.{
  ℕ, zero, suc, ◌+◌, ◌-◌, max, Bool, true, false, not, ◌&&◌, ◌||◌, Option, some, none, List, [],
  ◌∷◌, ◌++◌, Text, codes, text_eq, starts_with, length, take, drop, filter, any, leb, ◌==◌,
  if◌then◌else◌, to_decimal, of_digits, includes, first_free, map,
}

-- `\d`
unfoldable pub is_digit : ℕ → Bool
is_digit c = leb b'0' c && leb c b'9'

unfoldable pub all_digits : Text → Bool
unfolding is_digit
all_digits [] = true
all_digits (c ∷ cs) = is_digit c && all_digits cs

-- `(\d+)` on the whole text, as a number.
unfoldable pub digits_of : Text → Option ℕ
unfolding all_digits of_digits
digits_of [] = none
digits_of (c ∷ cs) = if all_digits (c ∷ cs) then some (of_digits 0 (c ∷ cs)) else none

-- Two texts match character by character.
unfoldable pub matches : (ℕ → ℕ → Bool) → Text → Text → Bool
matches same [] [] = true
matches same [] (y ∷ ys) = false
matches same (x ∷ xs) [] = false
matches same (x ∷ xs) (y ∷ ys) = same x y && matches same xs ys

-- `^prefix(\d+)suffix$`: the number between a prefix and a suffix.
unfoldable pub number_between : (ℕ → ℕ → Bool) → Text → Text → Text → Option ℕ
unfolding matches digits_of
number_between same prefix suffix s =
    let middle = take (length s - length suffix - length prefix) (drop (length prefix) s) in
    if leb (length prefix + length suffix) (length s)
      && matches same prefix (take (length prefix) s)
      && matches same suffix (drop (length s - length suffix) s)
    then digits_of middle
    else none

-- The lowest index from 1 that no copy has.
unfoldable pub free_index : List ℕ → ℕ
unfolding first_free
free_index used = first_free (suc (length used)) (λ i. any (λ u. u == i) used) 1

unfoldable pub copy_prefix : Text → Text
copy_prefix name = name ++ codes " ("

unfoldable pub copy_suffix : Text → Text
copy_suffix ext = codes ")." ++ ext

-- `usedIndexes`, from the names in the directory.
unfoldable pub used_indexes : (ℕ → ℕ → Bool) → Text → Text → List Text → List ℕ
unfolding number_between copy_prefix copy_suffix
used_indexes same name ext [] = []
used_indexes same name ext (file ∷ files) =
    let rest = used_indexes same name ext files in
    elim (number_between same (copy_prefix name) (copy_suffix ext) file) [
      | none ↦ rest
      | some i ↦ i ∷ rest
    ]

-- `${name} (${index}).${ext}`
unfoldable pub copy_name : (ℕ → ℕ → Bool) → Text → Text → List Text → Text
unfolding free_index used_indexes copy_prefix copy_suffix to_decimal
copy_name same name ext files =
    copy_prefix name
    ++ (to_decimal (free_index (used_indexes same name ext files)) ++ copy_suffix ext)

-- `s.endsWith(suffix)`
unfoldable pub ends_with : Text → Text → Bool
ends_with s suffix =
    leb (length suffix) (length s) && text_eq (drop (length s - length suffix) s) suffix

-- A character of the pattern: a dot of the extension, which is not escaped, stands for any character
-- but a line terminator.
unfoldable pub pattern_same : (ℕ → ℕ → Bool) → ℕ → ℕ → Bool
pattern_same same p c =
    (p == b'.' && not (c == 10 || c == 13 || c == 0x2028 || c == 0x2029)) || same p c

module _ (to_lower : Text → Text) (same : ℕ → ℕ → Bool) where
  unfoldable pub is_untitled : Text → Text → Text → Bool
  unfolding ends_with
  is_untitled prefix extension file =
      starts_with (to_lower file) (to_lower prefix)
      && (text_eq extension [] || ends_with (to_lower file) (to_lower extension))

  unfoldable pub untitled_items : Text → Text → List Text → List Text
  unfolding is_untitled
  untitled_items prefix extension files = filter (is_untitled prefix extension) files

  -- `name.match(numberPattern)`: the number of a name, 0 without one. The prefix and the extension
  -- have no special character but the dot.
  unfoldable pub untitled_number : Text → Text → Text → Option ℕ
  unfolding number_between matches pattern_same
  untitled_number prefix extension name =
      if matches (pattern_same same) (prefix ++ extension) name
      then some 0
      else number_between (pattern_same same) (prefix ++ codes " ") extension name

  unfoldable pub max_number : Text → Text → List Text → ℕ
  unfolding untitled_number
  max_number prefix extension [] = 0
  max_number prefix extension (name ∷ names) =
      let rest = max_number prefix extension names in
      elim (untitled_number prefix extension name) [ none ↦ rest | some n ↦ max n rest ]

  unfoldable pub untitled_name : Text → Text → ℕ → Text
  unfolding to_decimal
  untitled_name prefix extension zero = prefix ++ extension
  untitled_name prefix extension (suc i) =
      (prefix ++ codes " ") ++ (to_decimal (suc i) ++ extension)

  -- The loop with `rounds` names left to try, and what is returned behind it.
  unfoldable pub try_names : ℕ → ℕ → Text → Text → List Text → Text → Text
  unfolding untitled_name
  try_names zero i prefix extension items last = last
  try_names (suc rounds) i prefix extension items last =
      let next = try_names rounds (suc i) prefix extension items last in
      let name = untitled_name prefix extension i in if includes items name then next else name

  unfoldable pub get_next_untitled_name : List Text → Text → Text → Text
  unfolding untitled_items max_number try_names untitled_name
  get_next_untitled_name files prefix extension =
      let items = untitled_items prefix extension files in
      let number = max_number prefix extension items in
      try_names (number + 2) 0 prefix extension items (untitled_name prefix extension (suc number))
