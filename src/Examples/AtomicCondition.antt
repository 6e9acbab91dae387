-- ===== src/Examples/AtomicCondition.antt =====
-- Two tasks and a number: task 1 waits for it to change, task 0 changes it.
use coopsync_tbb.Base.{ℕ, ◌<◌, ◌≡◌, ◌⊎◌, refl, Bool, true, false, arith, count, ◌==◌}
use coopsync_tbb.Tbb.{flags}
use coopsync_tbb.Machine.{
  primary, System, perform, suspend_if, exec, step, run, call, initial, Reach, here, next,
}
use coopsync_tbb.Machine.Occupancy.{held}
use coopsync_tbb.AtomicCondition.Atomic.{seq_cst}
use coopsync_tbb.AtomicCondition.{
  Condition, Loc, outside, atomic_wait, assign, action, calls_wait, assigns, condition,
}
use coopsync_tbb.Machine.Alarm.{sounds}
use coopsync_tbb.AtomicCondition.Notify.{changed_no_lost_wakeup, is_notifying}
use coopsync_tbb.Examples.{awake, called}

abbrev same : ℕ → ℕ → Bool
same x y = x == y

abbrev start : System flags (Condition ℕ) (Loc ℕ)
start = initial flags (condition same) (record { value = 5 }) (λ _. outside) awake

abbrev one : ℕ → System flags (Condition ℕ) (Loc ℕ) → System flags (Condition ℕ) (Loc ℕ)
one i s = step flags (condition same) false i s

abbrev changed : System flags (Condition ℕ) (Loc ℕ)
changed = one 0 (called (one 1 (one 1 (one 1 (called start 1 (atomic_wait 5))))) 0 (assign 6))

changed-Reach : Reach flags (condition same) 2 start changed
unfolding step exec perform suspend_if action
changed-Reach =
    next
      (next
        (next
          (next
            (next
              (next here (call 1 outside (atomic_wait 5) (omega arith) refl (calls_wait 5 seq_cst)))
              (run false 1 (omega arith) refl))
            (run false 1 (omega arith) tt))
          (run false 1 (omega arith) tt))
        (call 0 outside (assign 6) (omega arith) refl (assigns 6)))
      (run false 0 (omega arith) tt)

changed_no_lost_wakeup_example :
    (j : ℕ) × (j < 2)
    × ((sounds primary is_notifying (changed.pc j) ≡ true)
        ⊎ (0 < count 1 (held primary (changed.pc j))))
unfolding step exec perform suspend_if action
changed_no_lost_wakeup_example =
    changed_no_lost_wakeup same flags 5 (λ t. refl) changed-Reach 1 5 seq_cst refl refl refl
