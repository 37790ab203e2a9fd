-- ===== src/Mutex/Progress.antt =====
-- The mutex does not deadlock.
use tactile.Base.{
  ℕ, zero, suc, ◌<◌, ◌≤◌, true, false, ◌≡◌, refl, ap, ◌∙◌, List, [], ◌∷◌, All, inl, inr, ◌⊎◌, arith,
  ◌==◌, Bool-cases, ==_iff,
}
use tactile.Mutex.{
  Phase, waiting, running, settled, KeyedMutex, is_settled, all_settled, Step, start, settle,
  Reachable, set_phase,
}
use tactile.Mutex.Ordered.{Settled, IsOrdered, IsOrdered-Reachable}

-- A task may start, or it runs and may settle.
abbrev pub CanMove : KeyedMutex → ℕ → Type 0
CanMove m i =
    ((m.phase_of i ≡ waiting) × Step m (set_phase i running m))
    ⊎ ((m.phase_of i ≡ running) × Step m (set_phase i settled m))

all_settled_below :
    (f : ℕ → Phase) (n : ℕ) (ts : List ℕ)
    → ((i : ℕ) → i < n → is_settled (f i) ≡ true)
    → All (λ t. t < n) ts
    → all_settled f ts ≡ true
unfolding all_settled
all_settled_below f n [] h a = refl
all_settled_below f n (t ∷ ts) h a = ground (arith, h t a.0, all_settled_below f n ts h a.1)

-- The tasks before one have settled, or one of them may move.
below :
    (m : KeyedMutex)
    → IsOrdered m
    → (n : ℕ) → n ≤ m.count
    → ((i : ℕ) → i < n → Settled m i) ⊎ ((i : ℕ) × (i < n) × CanMove m i)
below m o zero h = inl (λ i l. absurd (omega (arith, l)))
below m o (suc n) h = elim (below m o n (omega (arith, h))) [
  | inr (i, l, c) ↦ inr (i, omega (arith, l), c)
  | inl all ↦ one (m.phase_of n) refl all
]
  where
    one :
        (p : Phase)
        → m.phase_of n ≡ p
        → ((i : ℕ) → i < n → Settled m i)
        → ((i : ℕ) → i < suc n → Settled m i) ⊎ ((i : ℕ) × (i < suc n) × CanMove m i)
    one waiting e all = inr (
      n,
      omega arith,
      inl (
        e,
        start m n (omega (arith, h)) e
            (all_settled_below m.phase_of n (m.waits_of n) all (o.earlier n (omega (arith, h)))),
      ),
    )
    one running e all = inr (n, omega arith, inr (e, settle m n (omega (arith, h)) e))
    one settled e all = inl λ i l. elim (Bool-cases (i == n)) [
      | inl same ↦ ap (λ q. is_settled (m.phase_of q)) ((==_iff i n).0 same) ∙ ap is_settled e
      | inr other ↦ all i (ground arith)
    ]

-- While a task has not settled, that task or one that was called before it may start or may settle:
-- no set of tasks, whatever their keys, waits for itself.
pub CanMove-Reachable :
    {m : KeyedMutex}
    → Reachable m
    → (n : ℕ) → n < m.count
    → is_settled (m.phase_of n) ≡ false
    → (i : ℕ) × (i ≤ n) × CanMove m i
CanMove-Reachable {m} r n h u = elim (below m (IsOrdered-Reachable r) (suc n) (omega (arith, h))) [
  | inr (i, l, c) ↦ (i, omega (arith, l), c)
  | inl all ↦ absurd (cc (u, all n (omega arith)))
]
