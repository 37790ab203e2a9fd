-- ===== src/Tests/MutexTests.antt =====
-- The theorems on packages/storage/src/mutex.ts with two calls that share a key, the first running.
use tactile.Base.{ℕ, ◌⊎◌, ◌≤◌, ◌≡◌, refl, false, [], ◌∷◌, codes, arith, lookup, text_eq, sort_names}
use tactile.Mutex.{
  KeyedMutex, Step, enter, start, Reachable, here, next, initial, run_exclusive, set_phase, running,
  is_running, prior, all_settled,
}
use tactile.Mutex.Lock.{LockStep}
use tactile.Mutex.Refinement.{lock_of, Step-refines}
use tactile.Mutex.Exclusion.{running_alone}
use tactile.Mutex.Progress.{CanMove, CanMove-Reachable}

abbrev one : KeyedMutex
one = run_exclusive (codes "/a" ∷ []) initial

abbrev two : KeyedMutex
two = run_exclusive (codes "/b" ∷ codes "/a" ∷ []) one

abbrev under_way : KeyedMutex
under_way = set_phase 0 running two

first_starts : Step two under_way
unfolding run_exclusive prior all_settled sort_names lookup
first_starts = start two 0 (omega arith) refl refl

under_way-Reachable : Reachable under_way
under_way-Reachable =
    next
      (next (next here (enter initial (codes "/a" ∷ [])))
        (enter one (codes "/b" ∷ codes "/a" ∷ [])))
      first_starts

running_alone_example : is_running (under_way.phase_of 1) ≡ false
unfolding set_phase run_exclusive text_eq
running_alone_example =
    running_alone under_way-Reachable (codes "/a") 0 1 (omega arith) (omega arith) refl refl refl
      refl

CanMove-Reachable_example : (i : ℕ) × (i ≤ 1) × CanMove under_way i
unfolding set_phase run_exclusive
CanMove-Reachable_example = CanMove-Reachable under_way-Reachable 1 (omega arith) refl

after_two : Reachable two
after_two =
    next (next here (enter initial (codes "/a" ∷ []))) (enter one (codes "/b" ∷ codes "/a" ∷ []))

Step-refines_example :
    LockStep (lock_of two) (lock_of under_way) ⊎ (lock_of two ≡ lock_of under_way)
Step-refines_example = Step-refines after_two first_starts
