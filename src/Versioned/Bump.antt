-- ===== src/Versioned/Bump.antt =====
-- The loop that looks for a free version name ends.
use tactile.Base.{
  ℕ, zero, suc, ◌≤◌, ◌<◌, Bool, true, false, ◌≡◌, refl, ◌∙◌, List, ◌++◌, Text, codes, ok, length,
  includes, first_free, first_free_lem, first_free_least, to_decimal, to_decimal-injective,
  append_cancel_right,
}
use tactile.Storage.{>>=-ok, Action, pure}
use tactile.Storage.Backend.{Backend}
use tactile.Versioned.{Versioning, bump, version_path}

abbrev pub version_name : ℕ → Text
version_name t = to_decimal t ++ codes ".md"

version_name-injective : (i j : ℕ) → version_name i ≡ version_name j → i ≡ j
version_name-injective i j h =
    to_decimal-injective i j (append_cancel_right (to_decimal i) (to_decimal j) (codes ".md") h)

module _ (inner : Backend) (settings : Versioning) where
  bump-first_free :
      (rounds : ℕ) (dir : Text) (t : ℕ) (w : inner.World) (taken : ℕ → Bool)
      → ((i : ℕ) → inner.exists (version_path inner settings dir i) w ≡ (ok (taken i), w))
      → bump inner settings rounds dir t w ≡ (ok (first_free rounds taken t), w)
  unfolding bump first_free
  bump-first_free zero dir t w taken h = refl
  bump-first_free (suc rounds) dir t w taken h =
      >>=-ok (inner.exists (version_path inner settings dir t))
        (λ b. elim b [ true ↦ bump inner settings rounds dir (suc t) | false ↦ pure t ]) w (h t)
      ∙ next (bump-first_free rounds dir (suc t) w taken h) (taken t)
    where
      next :
          bump inner settings rounds dir (suc t) w ≡ (ok (first_free rounds taken (suc t)), w)
          → (b : Bool)
          → (elim b as (λ _. Action inner.World ℕ) [
            | true ↦ bump inner settings rounds dir (suc t)
            | false ↦ pure t
          ])
              w
            ≡ (ok (elim b [ true ↦ first_free rounds taken (suc t) | false ↦ t ]), w)
      next more true = more
      next more false = refl

  -- Where `exists` answers for version names by the list of names in use, one more round than there
  -- are names is enough: the loop gives the least time from the given one whose name is free, and
  -- changes nothing.
  pub bump_lem :
      (dir : Text) (t : ℕ) (w : inner.World) (used : List Text)
      → ((i : ℕ)
          → inner.exists (version_path inner settings dir i) w
            ≡ (ok (includes used (version_name i)), w))
      → (m : ℕ) × (bump inner settings (suc (length used)) dir t w ≡ (ok m, w))
        × (includes used (version_name m) ≡ false)
        × ((j : ℕ) → t ≤ j → j < m → includes used (version_name j) ≡ true)
  bump_lem dir t w used h =
      let taken : ℕ → Bool = λ k. includes used (version_name k) in
      (
        first_free (suc (length used)) taken t,
        bump-first_free (suc (length used)) dir t w taken h,
        first_free_lem version_name version_name-injective used t,
        first_free_least (suc (length used)) taken t,
      )
