-- ===== src/Mutex.antt =====
-- packages/storage/src/mutex.ts: `KeyedMutex`, as a step relation.
--
-- A call of `runExclusive` is a task, numbered in the order of the calls; its number stands for the
-- promise `tail`. What the promises do is a step each: a task starts once all that it waits for have
-- settled, it settles at some time after that, and its keys are released at some time after that.
pub mod Chains
pub mod Ordered
pub mod Exclusion
pub mod Progress
pub mod Lock
pub mod Refinement
use tactile.Base.{
  ℕ, suc, ◌<◌, Bool, true, false, ◌&&◌, ◌≡◌, Option, some, none, List, [], ◌∷◌, Text, ◌==◌, lookup,
  assign, erase, sort_names, if◌then◌else◌,
}

pub data Phase : Type 0 where
  waiting running settled : Phase

abbrev pub is_settled : Phase → Bool
is_settled waiting = false
is_settled running = false
is_settled settled = true

abbrev pub is_waiting : Phase → Bool
is_waiting waiting = true
is_waiting running = false
is_waiting settled = false

abbrev pub is_running : Phase → Bool
is_running waiting = false
is_running running = true
is_running settled = false

abbrev pub Chains : Type 0
Chains = List (Text × ℕ)

pub record KeyedMutex : Type 0 where
  pub count : ℕ
  pub keys_of : ℕ → List Text
  -- `prior`
  pub waits_of : ℕ → List ℕ
  pub phase_of : ℕ → Phase
  pub chains : Chains

abbrev pub set_at {ℓ} : {A : Type ℓ} → ℕ → A → (ℕ → A) → ℕ → A
set_at i a f j = if j == i then a else f j

-- `sorted.map((key) => this.chains.get(key)).filter(Boolean)`
unfoldable pub prior : List Text → Chains → List ℕ
unfolding lookup
prior [] chains = []
prior (k ∷ ks) chains =
    let rest = prior ks chains in elim (lookup k chains) [ none ↦ rest | some t ↦ t ∷ rest ]

unfoldable pub register : List Text → ℕ → Chains → Chains
unfolding assign
register [] tail chains = chains
register (k ∷ ks) tail chains = register ks tail (assign k tail chains)

abbrev pub is_tail : ℕ → Option ℕ → Bool
is_tail tail none = false
is_tail tail (some t) = t == tail

-- `if (this.chains.get(key) === tail) this.chains.delete(key)` for each key.
unfoldable pub unregister : List Text → ℕ → Chains → Chains
unfolding lookup erase
unregister [] tail chains = chains
unregister (k ∷ ks) tail chains =
    unregister ks tail (if is_tail tail (lookup k chains) then erase k chains else chains)

unfoldable pub run_exclusive : List Text → KeyedMutex → KeyedMutex
unfolding sort_names prior register
run_exclusive keys m = record {
  count = suc m.count;
  keys_of = set_at m.count keys m.keys_of;
  waits_of = set_at m.count (prior (sort_names keys) m.chains) m.waits_of;
  phase_of = set_at m.count waiting m.phase_of;
  chains = register (sort_names keys) m.count m.chains;
}

-- `Promise.allSettled`
unfoldable pub all_settled : (ℕ → Phase) → List ℕ → Bool
all_settled phase_of [] = true
all_settled phase_of (t ∷ ts) = is_settled (phase_of t) && all_settled phase_of ts

unfoldable pub set_phase : ℕ → Phase → KeyedMutex → KeyedMutex
set_phase i phase m = record m { phase_of = set_at i phase m.phase_of }

unfoldable pub release : ℕ → KeyedMutex → KeyedMutex
unfolding sort_names unregister
release i m = record m { chains = unregister (sort_names (m.keys_of i)) i m.chains }

-- No call was made.
abbrev pub initial : KeyedMutex
initial = record {
  count = 0;
  keys_of = λ _. [];
  waits_of = λ _. [];
  phase_of = λ _. waiting;
  chains = [];
}

pub data Step : KeyedMutex → KeyedMutex → Type 0 where
  enter : (m : KeyedMutex) (keys : List Text) → Step m (run_exclusive keys m)
  start :
      (m : KeyedMutex) (i : ℕ)
      → i < m.count
      → m.phase_of i ≡ waiting
      → all_settled m.phase_of (m.waits_of i) ≡ true
      → Step m (set_phase i running m)
  settle :
      (m : KeyedMutex) (i : ℕ)
      → i < m.count
      → m.phase_of i ≡ running
      → Step m (set_phase i settled m)
  free : (m : KeyedMutex) (i : ℕ) → i < m.count → m.phase_of i ≡ settled → Step m (release i m)

pub data Reachable : KeyedMutex → Type 0 where
  here : Reachable initial
  next : {m n : KeyedMutex} → Reachable m → Step m n → Reachable n
