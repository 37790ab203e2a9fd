-- ===== src/Diff/Walk.antt =====
-- What `lcsDiff` returns: both lists, spelled by the operations, and a longest common subsequence.
use tactile.Base.{
  ℕ, suc, ◌+◌, ◌≤◌, ◌≡◌, refl, ap, ◌∙◌, Option, some, none, List, [], ◌∷◌, arith, Text, text_eq_iff,
  length, drop,
}
use tactile.Diff.{is_same, Op, deletions, additions, walk, lcs_diff, cell, table, count_ops}
use tactile.Diff.Lcs.{lcs, Sub, length-le-lcs, cell-table}

abbrev pub add_numbered : Option ℕ → Text → List (ℕ × Text) → List (ℕ × Text)
add_numbered (some n) t r = (n, t) ∷ r
add_numbered none t r = r

-- The numbered texts on one side of a list of operations or lines.
abbrev pub numbered {ℓ} : {A : Type ℓ} → (A → Option ℕ) → (A → Text) → List A → List (ℕ × Text)
numbered number text [] = []
numbered number text (x ∷ xs) = add_numbered (number x) (text x) (numbered number text xs)

-- The lines of a document, numbered from `i`.
abbrev pub enumerate : ℕ → List Text → List (ℕ × Text)
enumerate i [] = []
enumerate i (x ∷ xs) = (i, x) ∷ enumerate (suc i) xs

abbrev pub a_side : List Op → List (ℕ × Text)
a_side = numbered (λ o. o.a_index) (λ o. o.text)

abbrev pub b_side : List Op → List (ℕ × Text)
b_side = numbered (λ o. o.b_index) (λ o. o.text)

a_side-deletions : (i : ℕ) (a : List Text) → a_side (deletions i a) ≡ enumerate i a
unfolding deletions
a_side-deletions i [] = refl
a_side-deletions i (x ∷ a) = ap (λ r. (i, x) ∷ r) (a_side-deletions (suc i) a)

b_side-deletions : (i : ℕ) (a : List Text) → b_side (deletions i a) ≡ []
unfolding deletions
b_side-deletions i [] = refl
b_side-deletions i (x ∷ a) = b_side-deletions (suc i) a

a_side-additions : (j : ℕ) (b : List Text) → a_side (additions j b) ≡ []
unfolding additions
a_side-additions j [] = refl
a_side-additions j (y ∷ b) = a_side-additions (suc j) b

b_side-additions : (j : ℕ) (b : List Text) → b_side (additions j b) ≡ enumerate j b
unfolding additions
b_side-additions j [] = refl
b_side-additions j (y ∷ b) = ap (λ r. (j, y) ∷ r) (b_side-additions (suc j) b)

-- The operations spell the first list, each line under its index.
pub a_side-walk :
    (dp : List (List ℕ)) (i : ℕ) (a : List Text) (j : ℕ) (b : List Text)
    → a_side (walk dp i a j b) ≡ enumerate i a
unfolding walk
a_side-walk dp i [] j b = a_side-additions j b
a_side-walk dp i (x ∷ a) j [] = a_side-deletions i (x ∷ a)
a_side-walk dp i (x ∷ a) j (y ∷ b) = ground (
  arith,
  a_side-walk dp (suc i) a (suc j) b,
  a_side-walk dp (suc i) a j (y ∷ b),
  a_side-walk dp i (x ∷ a) (suc j) b,
)

-- They spell the second list too.
pub b_side-walk :
    (dp : List (List ℕ)) (i : ℕ) (a : List Text) (j : ℕ) (b : List Text)
    → b_side (walk dp i a j b) ≡ enumerate j b
unfolding walk
b_side-walk dp i [] j b = b_side-additions j b
b_side-walk dp i (x ∷ a) j [] = b_side-deletions i (x ∷ a)
b_side-walk dp i (x ∷ a) j (y ∷ b) = ground (
  arith,
  text_eq_iff x y,
  b_side-walk dp (suc i) a (suc j) b,
  b_side-walk dp (suc i) a j (y ∷ b),
  b_side-walk dp i (x ∷ a) (suc j) b,
)

-- `dp`, read from row `i` and column `j` on, is the table of `a` and `b`.
abbrev IsTable : List (List ℕ) → ℕ → List Text → ℕ → List Text → Type 0
IsTable dp i a j b = (p q : ℕ) → cell dp (p + i) (q + j) ≡ lcs (drop p a) (drop q b)

below :
    (dp : List (List ℕ)) (i : ℕ) (x : Text) (a : List Text) (j : ℕ) (b : List Text)
    → IsTable dp i (x ∷ a) j b
    → IsTable dp (suc i) a j b
below dp i x a j b t p q = ap (λ k. cell dp k (q + j)) (omega arith) ∙ t (suc p) q

right :
    (dp : List (List ℕ)) (i : ℕ) (a : List Text) (j : ℕ) (y : Text) (b : List Text)
    → IsTable dp i a j (y ∷ b)
    → IsTable dp i a (suc j) b
right dp i a j y b t p q = ap (cell dp (p + i)) (omega arith) ∙ t p (suc q)

count-deletions : (i : ℕ) (a : List Text) → count_ops is_same (deletions i a) ≡ 0
unfolding count_ops deletions
count-deletions i [] = refl
count-deletions i (x ∷ a) = omega (arith, count-deletions (suc i) a)

count-additions : (j : ℕ) (b : List Text) → count_ops is_same (additions j b) ≡ 0
unfolding count_ops additions
count-additions j [] = refl
count-additions j (y ∷ b) = omega (arith, count-additions (suc j) b)

-- The walk keeps as many lines as a longest common subsequence has.
count_same-walk :
    (dp : List (List ℕ)) (i : ℕ) (a : List Text) (j : ℕ) (b : List Text)
    → IsTable dp i a j b
    → count_ops is_same (walk dp i a j b) ≡ lcs a b
unfolding walk count_ops lcs
count_same-walk dp i [] j b t = count-additions j b
count_same-walk dp i (x ∷ a) j [] t = count-deletions i (x ∷ a)
count_same-walk dp i (x ∷ a) j (y ∷ b) t =
    let t₁ = below dp i x a j (y ∷ b) t in
    let t₂ = right dp i (x ∷ a) j y b t in
    ground (
      arith,
      t₁ 0 0,
      t₂ 0 0,
      count_same-walk dp (suc i) a (suc j) b (right dp (suc i) a j y b t₁),
      count_same-walk dp (suc i) a j (y ∷ b) t₁,
      count_same-walk dp i (x ∷ a) (suc j) b t₂,
    )

pub count_same-lcs_diff : (a b : List Text) → count_ops is_same (lcs_diff a b) ≡ lcs a b
unfolding lcs_diff
count_same-lcs_diff a b = count_same-walk (table a b) 0 a 0 b λ p q.
    ap (λ k. cell (table a b) k (q + 0)) (omega arith)
    ∙ ap (cell (table a b) p) (omega arith)
    ∙ cell-table a b p q

-- No common subsequence is longer than what `lcsDiff` keeps.
pub lcs_diff_longest :
    (a b s : List Text) → Sub s a → Sub s b → length s ≤ count_ops is_same (lcs_diff a b)
lcs_diff_longest a b s p q = omega (arith, count_same-lcs_diff a b, length-le-lcs a b s p q)
