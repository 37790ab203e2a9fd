-- ===== src/Tests/NamingTests.antt =====
-- The theorems on the names that are chosen for new notes and copies.
use tactile.Base.{
  ℕ, Bool, false, true, ◌≡◌, refl, List, [], ◌∷◌, Text, codes, ◌==◌, ==_iff, includes,
}
use tactile.Naming.{copy_name, untitled_items, get_next_untitled_name}
use tactile.Naming.Fresh.{copy_name_lem, get_next_untitled_name_lem}

abbrev exactly : ℕ → ℕ → Bool
exactly a b = a == b

exactly_refl : (c : ℕ) → exactly c c ≡ true
exactly_refl c = (==_iff c c).1 refl

abbrev unchanged : Text → Text
unchanged s = s

abbrev files : List Text
files = codes "a (1).md" ∷ codes "a.md" ∷ codes "Untitled.md" ∷ codes "Untitled 4.md" ∷ []

get_next_untitled_name_lem_example :
    includes
      (untitled_items unchanged exactly (codes "Untitled") (codes ".md") files)
      (get_next_untitled_name unchanged exactly files (codes "Untitled") (codes ".md"))
    ≡ false
get_next_untitled_name_lem_example =
    get_next_untitled_name_lem unchanged exactly exactly_refl files (codes "Untitled") (codes ".md")

copy_name_lem_example : includes files (copy_name exactly (codes "a") (codes "md") files) ≡ false
copy_name_lem_example = copy_name_lem exactly exactly_refl (codes "a") (codes "md") files
