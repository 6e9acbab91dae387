-- ===== src/Examples/AtomicRef.antt =====
-- A number, a condition on it and a copy of that: task 1 waits on the copy, task 0 changes the number and
-- notifies on the original.
use coopsync_tbb.Base.{ℕ, ◌<◌, ◌≡◌, ◌⊎◌, refl, Bool, true, false, arith, count, ◌==◌}
use coopsync_tbb.Tbb.{flags}
use coopsync_tbb.Machine.{
  System, perform, suspend_if, exec, step, run, call, initial, Reach, here, next,
}
use coopsync_tbb.Machine.Occupancy.{held}
use coopsync_tbb.Machine.Alarm.{sounds}
use coopsync_tbb.AtomicCondition.Atomic.{acquire}
use coopsync_tbb.AtomicCondition.Ref.{
  Referred, Loc, outside, assign, assigned, wait, notify_all, original, copy, action, assigns,
  notifies_original, calls_wait, atomic_ref_condition,
}
use coopsync_tbb.AtomicCondition.Ref.Notify.{copy_no_lost_wakeup, is_notifying}
use coopsync_tbb.Examples.{awake, called}

abbrev same : ℕ → ℕ → Bool
same x y = x == y

abbrev start : System flags (Referred ℕ) (Loc ℕ)
start = initial flags (atomic_ref_condition same) (record { value = 5 }) (λ _. outside) awake

abbrev one : ℕ → System flags (Referred ℕ) (Loc ℕ) → System flags (Referred ℕ) (Loc ℕ)
one i s = step flags (atomic_ref_condition same) false i s

abbrev asleep : System flags (Referred ℕ) (Loc ℕ)
asleep = one 1 (one 1 (one 1 (called start 1 (wait copy 5 acquire))))

abbrev told : System flags (Referred ℕ) (Loc ℕ)
told = one 0 (one 0 (called (one 0 (called asleep 0 (assign 6))) 0 (notify_all original true)))

told-Reach : Reach flags (atomic_ref_condition same) 2 start told
unfolding step exec perform suspend_if action
told-Reach =
    next
      (next
        (next
          (next
            (next
              (next
                (next
                  (next
                    (next here (
                      call 1 outside (wait copy 5 acquire) (omega arith) refl
                        (calls_wait copy 5 acquire)))
                    (run false 1 (omega arith) refl))
                  (run false 1 (omega arith) tt))
                (run false 1 (omega arith) tt))
              (call 0 outside (assign 6) (omega arith) refl (assigns 6)))
            (run false 0 (omega arith) tt))
          (call 0 assigned (notify_all original true) (omega arith) refl notifies_original))
        (run false 0 (omega arith) tt))
      (run false 0 (omega arith) tt)

copy_no_lost_wakeup_example :
    (j : ℕ) × (j < 2)
    × ((sounds copy (is_notifying copy) (told.pc j) ≡ true) ⊎ (0 < count 1 (held copy (told.pc j))))
unfolding step exec perform suspend_if action
copy_no_lost_wakeup_example =
    copy_no_lost_wakeup same flags 5 (λ t. refl) told-Reach 1 copy 5 acquire refl refl refl
