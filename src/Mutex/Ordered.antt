-- ===== src/Mutex/Ordered.antt =====
-- The invariant of the mutex: tasks that share a key are in the order of their calls.
use tactile.Base.{
  ℕ, ◌<◌, ◌≤◌, true, false, ◌≡◌, refl, sym, ap, ◌∙◌, some, List, [], ◌∷◌, Text, ◌==◌, ==_iff, any,
  All, lookup, includes, includes-sort_names, sort_names, arith, Bool-cases, inl, inr, ◌⊎◌,
}
use tactile.Mutex.{
  Phase, waiting, running, settled, is_settled, is_waiting, KeyedMutex, Step, enter, start, settle,
  free, Reachable, here, next, all_settled, run_exclusive, set_phase, set_at, release, initial,
}
use tactile.Mutex.Chains.{
  lookup-register, lookup-unregister, lookup-unregister_other, includes-prior, All-prior,
  settled-all_settled,
}

abbrev pub Holds : KeyedMutex → Text → ℕ → Type 0
Holds m k i = includes (m.keys_of i) k ≡ true

abbrev pub Settled : KeyedMutex → ℕ → Type 0
Settled m i = is_settled (m.phase_of i) ≡ true

pub record IsOrdered (m : KeyedMutex) : Type 0 where
  -- A chain ends in a task that holds its key.
  pub bound : (k : Text) (t : ℕ) → lookup k m.chains ≡ some t → (t < m.count) × Holds m k t
  -- A task waits for earlier ones.
  pub earlier : (j : ℕ) → j < m.count → All (λ t. t < j) (m.waits_of j)
  -- The chain of a key ends in a task that is no earlier than any task that holds the key and is
  -- under way.
  pub tail :
      (k : Text) (i : ℕ)
      → i < m.count
      → Holds m k i
      → Settled m i ⊎ ((t : ℕ) × (i ≤ t) × (lookup k m.chains ≡ some t))
  -- Of two tasks that share a key, the later one waits for one that is no earlier than the first.
  pub queued :
      (k : Text) (i j : ℕ)
      → i < j
      → j < m.count
      → Holds m k i
      → Holds m k j
      → Settled m i ⊎ ((t : ℕ) × (i ≤ t) × (any (λ u. u == t) (m.waits_of j) ≡ true) × Holds m k t)
  -- Once the later one has started, the first has settled.
  pub exclusive :
      (k : Text) (i j : ℕ)
      → i < j
      → j < m.count
      → Holds m k i
      → Holds m k j
      → is_waiting (m.phase_of j) ≡ false
      → Settled m i

All-any : (P : ℕ → Type 0) (ts : List ℕ) (t : ℕ) → any (λ u. u == t) ts ≡ true → All P ts → P t
All-any P [] t h a = absurd (cc h)
All-any P (x ∷ ts) t h a = elim (Bool-cases (x == t)) [
  | inl e ↦ rw (sym ((==_iff x t).0 e)) (a.0)
  | inr e ↦ All-any P ts t (ground arith) a.1
]

-- What a function gives at an old number is not changed at a new one.
set_at_old {ℓ} : {A : Type ℓ} (n : ℕ) (x : A) (f : ℕ → A) (i : ℕ) → i < n → set_at n x f i ≡ f i
set_at_old n x f i h = let e : (i == n) ≡ false = ground arith in rw e refl

module _ (keys : List Text) (m : KeyedMutex) (o : IsOrdered m) where
  abbrev after : KeyedMutex
  after = run_exclusive keys m

  Holds-before : (k : Text) (i : ℕ) → i < m.count → Holds after k i → Holds m k i
  unfolding run_exclusive
  Holds-before k i h g = ap (λ ks. includes ks k) (sym (set_at_old m.count keys m.keys_of i h)) ∙ g

  Holds-after : (k : Text) (i : ℕ) → i < m.count → Holds m k i → Holds after k i
  unfolding run_exclusive
  Holds-after k i h g = ap (λ ks. includes ks k) (set_at_old m.count keys m.keys_of i h) ∙ g

  Holds-last : (k : Text) (i : ℕ) → (i == m.count) ≡ true → Holds after k i → includes keys k ≡ true
  unfolding run_exclusive
  Holds-last k i e g = rw e at g

  Settled-after : (i : ℕ) → i < m.count → Settled m i → Settled after i
  unfolding run_exclusive
  Settled-after i h g = ap is_settled (set_at_old m.count waiting m.phase_of i h) ∙ g

  chain_new : (k : Text) → includes keys k ≡ true → lookup k after.chains ≡ some m.count
  unfolding run_exclusive
  chain_new k h =
      ground
        (arith, lookup-register (sort_names keys) m.count m.chains k, includes-sort_names keys k)

  chain_old : (k : Text) → includes keys k ≡ false → lookup k after.chains ≡ lookup k m.chains
  unfolding run_exclusive
  chain_old k h =
      ground
        (arith, lookup-register (sort_names keys) m.count m.chains k, includes-sort_names keys k)

  bound_new :
      (k : Text) (t : ℕ) → lookup k after.chains ≡ some t → (t < after.count) × Holds after k t
  unfolding run_exclusive
  bound_new k t h = elim (Bool-cases (includes keys k)) [
    | inl e ↦
        let same : m.count ≡ t = cc (chain_new k e, h) in
        let new : (t == m.count) ≡ true = (==_iff t m.count).1 (sym same) in
        (omega (arith, same), rw new e)
    | inr e ↦
        let old = o.bound k t (sym (chain_old k e) ∙ h) in
        (omega (arith, old.0), Holds-after k t old.0 old.1)
  ]

  earlier_new : (j : ℕ) → j < after.count → All (λ t. t < j) (after.waits_of j)
  unfolding run_exclusive
  earlier_new j h = elim (Bool-cases (j == m.count)) [
    | inl e ↦
        rw (e, All)
          (All-prior (λ t. t < j) (sort_names keys) m.chains
            (λ k t l. omega (arith, (o.bound k t l).0, (==_iff j m.count).0 e)))
    | inr e ↦ rw (e, All) (o.earlier j (ground arith))
  ]

  tail_new :
      (k : Text) (i : ℕ)
      → i < after.count
      → Holds after k i
      → Settled after i ⊎ ((t : ℕ) × (i ≤ t) × (lookup k after.chains ≡ some t))
  unfolding run_exclusive
  tail_new k i h g = elim (Bool-cases (i == m.count)) [
    | inl e ↦ inr (m.count, ground arith, chain_new k (Holds-last k i e g))
    | inr e ↦
        let lt : i < m.count = ground arith in
        elim (o.tail k i lt (Holds-before k i lt g)) [
          | inl s ↦ inl (Settled-after i lt s)
          | inr (t, le, l) ↦ elim (Bool-cases (includes keys k)) [
            | inl c ↦ inr (m.count, omega (arith, lt), chain_new k c)
            | inr c ↦ inr (t, le, chain_old k c ∙ l)
          ]
        ]
  ]

  queued_new :
      (k : Text) (i j : ℕ)
      → i < j
      → j < after.count
      → Holds after k i
      → Holds after k j
      → Settled after i
        ⊎ ((t : ℕ) × (i ≤ t) × (any (λ u. u == t) (after.waits_of j) ≡ true) × Holds after k t)
  unfolding run_exclusive
  queued_new k i j lt h gi gj = elim (Bool-cases (j == m.count)) [
    | inl e ↦
        let old : i < m.count = omega (arith, lt, (==_iff j m.count).0 e) in
        elim (o.tail k i old (Holds-before k i old gi)) [
          | inl s ↦ inl (Settled-after i old s)
          | inr (t, le, l) ↦
              let b = o.bound k t l in
              let there = includes-sort_names keys k ∙ Holds-last k j e gj in
              inr (
                t,
                le,
                rw e (includes-prior (sort_names keys) m.chains k t there l),
                Holds-after k t b.0 b.1,
              )
        ]
    | inr e ↦
        let oj : j < m.count = ground arith in
        let oi : i < m.count = omega (arith, lt, oj) in
        elim (o.queued k i j lt oj (Holds-before k i oi gi) (Holds-before k j oj gj)) [
          | inl s ↦ inl (Settled-after i oi s)
          | inr (t, le, w, g) ↦
              let ot : t < m.count =
                omega (arith, oj, All-any (λ t. t < j) (m.waits_of j) t w (o.earlier j oj)) in
              inr (t, le, rw e w, Holds-after k t ot g)
        ]
  ]

  exclusive_new :
      (k : Text) (i j : ℕ)
      → i < j
      → j < after.count
      → Holds after k i
      → Holds after k j
      → is_waiting (after.phase_of j) ≡ false
      → Settled after i
  unfolding run_exclusive
  exclusive_new k i j lt h gi gj p = elim (Bool-cases (j == m.count)) [
    | inl e ↦ let no : is_waiting waiting ≡ false = rw e at p in absurd (cc no)
    | inr e ↦
        let oj : j < m.count = ground arith in
        let oi : i < m.count = omega (arith, lt, oj) in
        Settled-after i oi (
          o.exclusive k i j lt oj (Holds-before k i oi gi) (Holds-before k j oj gj)
            (ap is_waiting (sym (set_at_old m.count waiting m.phase_of j oj)) ∙ p))
  ]

  IsOrdered-run_exclusive : IsOrdered after
  IsOrdered-run_exclusive = record {
    bound = bound_new;
    earlier = earlier_new;
    tail = tail_new;
    queued = queued_new;
    exclusive = exclusive_new;
  }

module _ (m : KeyedMutex) (o : IsOrdered m) (n : ℕ) (lt : n < m.count) where
  -- A phase changes, and what has settled stays so.
  IsOrdered-set_phase :
      (phase : Phase)
      → ((i : ℕ) → Settled m i → Settled (set_phase n phase m) i)
      → ((k : Text) (i : ℕ)
          → i < n
          → Holds m k i
          → Holds m k n
          → is_waiting phase ≡ false
          → Settled m i)
      → IsOrdered (set_phase n phase m)
  unfolding set_phase
  IsOrdered-set_phase phase stays before = record {
    bound = o.bound;
    earlier = o.earlier;
    tail = λ k i h g. elim (o.tail k i h g) [ inl s ↦ inl (stays i s) | inr t ↦ inr t ];
    queued = λ k i j l h gi gj. elim (o.queued k i j l h gi gj) [
      | inl s ↦ inl (stays i s)
      | inr t ↦ inr t
    ];
    exclusive = λ k i j l h gi gj p. elim (Bool-cases (j == n)) [
      | inl e ↦
          let same : j ≡ n = (==_iff j n).0 e in
          stays i (
            before k i (omega (arith, l, same)) gi
              (ap (λ q. includes (m.keys_of q) k) (sym same) ∙ gj) (rw e at p))
      | inr e ↦ stays i (o.exclusive k i j l h gi gj (rw e at p))
    ];
  }

  start_stays : m.phase_of n ≡ waiting → (i : ℕ) → Settled m i → Settled (set_phase n running m) i
  unfolding set_phase
  start_stays w i s = elim (Bool-cases (i == n)) [
    | inl e ↦
        let still : is_settled waiting ≡ true =
          ap is_settled (sym w ∙ ap m.phase_of (sym ((==_iff i n).0 e))) ∙ s in
        absurd (cc still)
    | inr e ↦ rw e s
  ]

  settle_stays : (i : ℕ) → Settled m i → Settled (set_phase n settled m) i
  unfolding set_phase
  settle_stays i s = elim (Bool-cases (i == n)) [ inl e ↦ rw e refl | inr e ↦ rw e s ]

  pub start_before :
      all_settled m.phase_of (m.waits_of n) ≡ true
      → (k : Text) (i : ℕ) → i < n
      → Holds m k i
      → Holds m k n
      → Settled m i
  start_before a k i l gi gn = elim (o.queued k i n l lt gi gn) [
    | inl s ↦ s
    | inr (t, le, w, g) ↦
        let done = settled-all_settled m.phase_of (m.waits_of n) t w a in
        elim (Bool-cases (i == t)) [
          | inl e ↦ ap (λ q. is_settled (m.phase_of q)) ((==_iff i t).0 e) ∙ done
          | inr e ↦
              let tn : t < n = All-any (λ t. t < n) (m.waits_of n) t w (o.earlier n lt) in
              o.exclusive k i t (ground arith) (omega (arith, tn, lt)) gi g
                (started (m.phase_of t) done)
        ]
  ]
    where
      started : (p : Phase) → is_settled p ≡ true → is_waiting p ≡ false
      started waiting h = absurd (cc h)
      started running h = refl
      started settled h = refl

  IsOrdered-start :
      m.phase_of n ≡ waiting
      → all_settled m.phase_of (m.waits_of n) ≡ true
      → IsOrdered (set_phase n running m)
  IsOrdered-start w a =
      IsOrdered-set_phase running (start_stays w) (λ k i l gi gn _. start_before a k i l gi gn)

  IsOrdered-settle : m.phase_of n ≡ running → IsOrdered (set_phase n settled m)
  IsOrdered-settle r =
      IsOrdered-set_phase settled settle_stays
        (λ k i l gi gn _. o.exclusive k i n l lt gi gn (ap is_waiting r))

  IsOrdered-release : m.phase_of n ≡ settled → IsOrdered (release n m)
  unfolding release
  IsOrdered-release s = record {
    bound = λ k t h. o.bound k t (lookup-unregister (sort_names (m.keys_of n)) n m.chains k t h);
    earlier = o.earlier;
    tail = λ k i h g. elim (o.tail k i h g) [
      | inl d ↦ inl d
      | inr (t, le, l) ↦ elim (Bool-cases (t == n)) [
        | inr e ↦ inr (t, le, lookup-unregister_other (sort_names (m.keys_of n)) n m.chains k t e l)
        | inl e ↦ inl (released k i t g le l ((==_iff t n).0 e))
      ]
    ];
    queued = o.queued;
    exclusive = o.exclusive;
  }
    where
      released :
          (k : Text) (i t : ℕ)
          → Holds m k i
          → i ≤ t
          → lookup k m.chains ≡ some t
          → t ≡ n
          → Settled m i
      released k i t g le l e = elim (Bool-cases (i == n)) [
        | inl same ↦ ap (λ q. is_settled (m.phase_of q)) ((==_iff i n).0 same) ∙ ap is_settled s
        | inr other ↦
            o.exclusive k i n (ground arith) lt g
              (ap (λ q. includes (m.keys_of q) k) (sym e) ∙ (o.bound k t l).1) (ap is_waiting s)
      ]

IsOrdered-initial : IsOrdered initial
unfolding lookup
IsOrdered-initial = record {
  bound = λ k t h. absurd (cc h);
  earlier = λ j h. absurd (omega (arith, h));
  tail = λ k i h g. absurd (omega (arith, h));
  queued = λ k i j l h gi gj. absurd (omega (arith, h));
  exclusive = λ k i j l h gi gj p. absurd (omega (arith, h));
}

pub IsOrdered-Step : {m n : KeyedMutex} → Step m n → IsOrdered m → IsOrdered n
IsOrdered-Step (enter m keys) o = IsOrdered-run_exclusive keys m o
IsOrdered-Step (start m i lt w a) o = IsOrdered-start m o i lt w a
IsOrdered-Step (settle m i lt r) o = IsOrdered-settle m o i lt r
IsOrdered-Step (free m i lt s) o = IsOrdered-release m o i lt s

-- Whatever calls were made and however far their tasks are, the tasks that share a key go in the order
-- of their calls.
pub IsOrdered-Reachable : {m : KeyedMutex} → Reachable m → IsOrdered m
IsOrdered-Reachable here = IsOrdered-initial
IsOrdered-Reachable (next r s) = IsOrdered-Step s (IsOrdered-Reachable r)
