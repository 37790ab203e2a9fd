-- ===== src/Mutex/Refinement.antt =====
-- The mutex is a lock that serves the calls of each key in their order.
use tactile.Base.{◌≡◌, refl, inl, inr, ◌⊎◌}
use tactile.Mutex.{
  KeyedMutex, Step, enter, start, settle, free, Reachable, run_exclusive, set_phase, release,
}
use tactile.Mutex.Ordered.{IsOrdered-Reachable, start_before}
use tactile.Mutex.Lock.{Lock, LockStep, request, grant, finish}

-- What is seen of a mutex from outside.
abbrev pub lock_of : KeyedMutex → Lock
lock_of m = record { count = m.count; keys_of = m.keys_of; phase_of = m.phase_of }

-- Every step of a mutex that can be reached is a step of the lock, or the lock does not see it: a task
-- that has nothing left to wait for is one that the lock may grant.
pub Step-refines :
    {m n : KeyedMutex}
    → Reachable m
    → Step m n
    → LockStep (lock_of m) (lock_of n) ⊎ (lock_of m ≡ lock_of n)
unfolding run_exclusive set_phase release
Step-refines r (enter m keys) = inl (request (lock_of m) keys)
Step-refines r (start m i lt w a) = inl (
    grant (lock_of m) i lt w
      (λ k j l gj gi. start_before m (IsOrdered-Reachable r) i lt a k j l gj gi))
Step-refines r (settle m i lt p) = inl (finish (lock_of m) i lt p)
Step-refines r (free m i lt s) = inr refl
