-- ===== src/Mutex/Lock.antt =====
-- What a mutex promises, without the chains and the promises by which it does so: a lock that serves
-- the calls of each key in their order.
use tactile.Base.{ℕ, suc, ◌<◌, true, ◌≡◌, List, Text, includes}
use tactile.Mutex.{Phase, waiting, running, settled, is_settled, set_at}

pub record Lock : Type 0 where
  pub count : ℕ
  pub keys_of : ℕ → List Text
  pub phase_of : ℕ → Phase

-- A call may start once all earlier calls with a common key have settled, whatever else is under way.
abbrev pub IsNext : Lock → ℕ → Type 0
IsNext l i =
    (k : Text) (j : ℕ)
    → j < i
    → includes (l.keys_of j) k ≡ true
    → includes (l.keys_of i) k ≡ true
    → is_settled (l.phase_of j) ≡ true

pub data LockStep : Lock → Lock → Type 0 where
  request :
      (l : Lock) (keys : List Text)
      → LockStep l (record {
        count = suc l.count;
        keys_of = set_at l.count keys l.keys_of;
        phase_of = set_at l.count waiting l.phase_of;
      })
  grant :
      (l : Lock) (i : ℕ)
      → i < l.count
      → l.phase_of i ≡ waiting
      → IsNext l i
      → LockStep l (record l { phase_of = set_at i running l.phase_of })
  finish :
      (l : Lock) (i : ℕ)
      → i < l.count
      → l.phase_of i ≡ running
      → LockStep l (record l { phase_of = set_at i settled l.phase_of })
