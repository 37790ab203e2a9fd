-- ===== src/Mutex/Exclusion.antt =====
-- No two tasks that share a key run at once.
use tactile.Base.{
  ℕ, ◌<◌, false, true, ◌≡◌, refl, ap, sym, ◌∙◌, Text, inl, inr, arith, ◌==◌, ltb, Bool-cases,
}
use tactile.Mutex.{
  KeyedMutex, Phase, waiting, running, settled, is_waiting, is_settled, is_running, Reachable,
}
use tactile.Mutex.Ordered.{Holds, Settled, IsOrdered-Reachable}

settled_not_running : (p : Phase) → is_settled p ≡ true → is_running p ≡ false
settled_not_running waiting h = refl
settled_not_running running h = absurd (cc h)
settled_not_running settled h = refl

-- Whatever calls were made and however far their tasks are: while a task runs, no other task that was
-- called with a common key runs.
pub running_alone :
    {m : KeyedMutex}
    → Reachable m
    → (k : Text) (i j : ℕ) → i < m.count
    → j < m.count
    → (i == j) ≡ false
    → Holds m k i
    → Holds m k j
    → m.phase_of i ≡ running
    → is_running (m.phase_of j) ≡ false
running_alone {m} r k i j hi hj apart gi gj ri =
    let o = IsOrdered-Reachable r in
    elim (Bool-cases (ltb i j)) [
      | inl l ↦ later (m.phase_of j) refl (o.exclusive k i j (ground arith) hj gi gj)
      | inr g ↦
          settled_not_running (m.phase_of j)
            (o.exclusive k j i (ground arith) hi gj gi (ap is_waiting ri))
    ]
  where
    later :
        (p : Phase)
        → m.phase_of j ≡ p
        → (is_waiting (m.phase_of j) ≡ false → Settled m i)
        → is_running (m.phase_of j) ≡ false
    later waiting e h = ap is_running e
    later settled e h = ap is_running e
    later running e h =
        let over : is_settled running ≡ true = sym (ap is_settled ri) ∙ h (ap is_waiting e) in
        absurd (cc over)
