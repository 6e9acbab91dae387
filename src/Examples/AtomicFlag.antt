-- ===== src/Examples/AtomicFlag.antt =====
-- Two tasks and a flag that is set: task 1 waits for it to be cleared, task 0 clears it.
use coopsync_tbb.Base.{ℕ, ◌<◌, ◌≡◌, ◌⊎◌, refl, true, false, arith, count}
use coopsync_tbb.Tbb.{flags}
use coopsync_tbb.Machine.{
  primary, System, perform, suspend_if, exec, step, run, call, initial, Reach, here, next,
}
use coopsync_tbb.Machine.Occupancy.{held}
use coopsync_tbb.Machine.Alarm.{sounds}
use coopsync_tbb.AtomicCondition.Atomic.{seq_cst}
use coopsync_tbb.AtomicCondition.Flag.{
  Flag, Loc, outside, action, calls_wait, calls_clear, atomic_flag, atomic_flag_wait,
  atomic_flag_clear,
}
use coopsync_tbb.AtomicCondition.Flag.Notify.{flag_no_lost_wakeup, is_notifying}
use coopsync_tbb.Examples.{awake, called}

abbrev start : System flags Flag Loc
start = initial flags atomic_flag (record { value = true }) (λ _. outside) awake

abbrev one : ℕ → System flags Flag Loc → System flags Flag Loc
one i s = step flags atomic_flag false i s

abbrev changed : System flags Flag Loc
changed =
    one 0
      (called (one 1 (one 1 (one 1 (called start 1 (atomic_flag_wait true))))) 0 atomic_flag_clear)

changed-Reach : Reach flags atomic_flag 2 start changed
unfolding step exec perform suspend_if action
changed-Reach =
    next
      (next
        (next
          (next
            (next
              (next here (
                call 1 outside (atomic_flag_wait true) (omega arith) refl
                  (calls_wait true seq_cst)))
              (run false 1 (omega arith) refl))
            (run false 1 (omega arith) tt))
          (run false 1 (omega arith) tt))
        (call 0 outside atomic_flag_clear (omega arith) refl (calls_clear seq_cst)))
      (run false 0 (omega arith) refl)

flag_no_lost_wakeup_example :
    (j : ℕ) × (j < 2)
    × ((sounds primary is_notifying (changed.pc j) ≡ true)
        ⊎ (0 < count 1 (held primary (changed.pc j))))
unfolding step exec perform suspend_if action
flag_no_lost_wakeup_example =
    flag_no_lost_wakeup flags true (λ t. refl) changed-Reach 1 true seq_cst refl refl refl
