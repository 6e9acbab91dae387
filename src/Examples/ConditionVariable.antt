-- ===== src/Examples/ConditionVariable.antt =====
-- Two tasks, a lock and a flag that tells task 0 to go on: it releases the lock in `wait`, and task 1
-- notifies before it sleeps.
use coopsync_tbb.Base.{ℕ, refl, Bool, true, false, none, some, arith, if◌then◌else◌}
use coopsync_tbb.Tbb.{flags}
use coopsync_tbb.Machine.{
  System, perform, suspend_if, exec, step, run, call, initial, Reach, here, next,
}
use coopsync_tbb.ConditionVariable.{
  Lockable, Shared, Loc, outside, take, holding, test, notify_all, action, takes, calls_wait_pred,
  calls_notify_all, condition_variable,
}
use coopsync_tbb.ConditionVariable.LostWakeup.{missed_notification, Stranded}
use coopsync_tbb.Examples.{awake, called}

abbrev lock_flag : Lockable
lock_flag = record {
  LockState = Bool;
  lock = λ b. if b then none else some true;
  unlock = λ b. false;
}

abbrev ready : Bool → Bool
ready d = d

abbrev start : System flags (Shared lock_flag Bool) (Loc Bool)
start =
    initial flags (condition_variable lock_flag ready)
      (record { lock_state = false; guarded = false }) (λ _. outside) awake

abbrev one :
    ℕ
    → System flags (Shared lock_flag Bool) (Loc Bool)
    → System flags (Shared lock_flag Bool) (Loc Bool)
one i s = step flags (condition_variable lock_flag ready) false i s

abbrev waiting : System flags (Shared lock_flag Bool) (Loc Bool)
waiting = called (one 0 (one 0 (called (one 0 (called start 0 take)) 0 test))) 1 (notify_all false)

waiting-Reach : Reach flags (condition_variable lock_flag ready) 2 start waiting
unfolding step exec perform suspend_if action
waiting-Reach =
    next
      (next
        (next
          (next
            (next (next here (call 0 outside take (omega arith) refl takes))
              (run false 0 (omega arith) tt))
            (call 0 holding test (omega arith) refl calls_wait_pred))
          (run false 0 (omega arith) tt))
        (run false 0 (omega arith) tt))
      (call 1 outside (notify_all false) (omega arith) refl (calls_notify_all false))

missed_notification_example :
    (t : System flags (Shared lock_flag Bool) (Loc Bool)) × Reach flags
      (condition_variable lock_flag ready)
      2
      waiting
      t
    × Stranded lock_flag ready flags 0 1 false waiting t
unfolding step exec perform suspend_if action
missed_notification_example =
    missed_notification lock_flag ready flags 2 0 1 true false waiting (record {
      i_below = omega arith;
      j_below = omega arith;
      distinct = λ e. omega arith;
      waiting = refl;
      notifying = refl;
      nobody = refl;
    })
