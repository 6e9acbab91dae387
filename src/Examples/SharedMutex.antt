-- ===== src/Examples/SharedMutex.antt =====
-- Tasks and a `shared_mutex`: readers, a writer beside a reader, and two writers whose hand-over
-- fails.
use coopsync_tbb.Base.{ℕ, ◌<◌, ◌≡◌, refl, true, false, arith, pos}
use coopsync_tbb.Tbb.{flags}
use coopsync_tbb.Machine.{
  System, perform, suspend_if, exec, step, run, call, initial, Reach, here, next,
}
use coopsync_tbb.SharedMutex.{
  SharedMutex, Loc, outside, lock, writer, unlock, lock_shared, reader, unlock_shared,
  unlock_shared_loop, action, calls_lock, calls_unlock, calls_lock_shared, calls_unlock_shared,
  shared_mutex, unlocked, Allowed,
}
use coopsync_tbb.SharedMutex.Exclusion.{writer_excludes, assertions_hold, is_writing, is_reading}
use coopsync_tbb.Machine.Alarm.Alone.{Wakes}
use coopsync_tbb.Machine.Ownership.{owners, AtMostOne}
use coopsync_tbb.SharedMutex.Ownership.{mode, shared_mutex-LockStep}
use coopsync_tbb.SharedMutex.Readers.{reader_woken}
use coopsync_tbb.SharedMutex.Destruction.{destructible, destructor_asserts}
use coopsync_tbb.SharedMutex.LostWakeup.{lost_wakeup, Stranded}
use coopsync_tbb.Examples.{awake, called}

abbrev start : System flags SharedMutex Loc
start = initial flags shared_mutex unlocked (λ _. outside) awake

abbrev one : ℕ → System flags SharedMutex Loc → System flags SharedMutex Loc
one i s = step flags shared_mutex false i s

abbrev locked : System flags SharedMutex Loc
locked = one 0 (called start 0 lock)

locked-Reach : Reach flags shared_mutex 2 start locked
unfolding step exec perform suspend_if action
locked-Reach =
    next (next here (call 0 outside lock (omega arith) refl calls_lock))
      (run false 0 (omega arith) tt)

writer_excludes_example : (is_writing (locked.pc 1) ≡ false) × (is_reading (locked.pc 1) ≡ false)
unfolding step exec perform suspend_if action
writer_excludes_example =
    writer_excludes flags (λ t. refl) locked-Reach 0 1 (omega arith) (omega arith)
      (λ e. omega arith) refl

abbrev shared : System flags SharedMutex Loc
shared = one 0 (one 0 (called start 0 lock_shared))

shared-Reach : Reach flags shared_mutex 2 start shared
unfolding step exec perform suspend_if action
shared-Reach =
    next
      (next (next here (call 0 outside lock_shared (omega arith) refl calls_lock_shared))
        (run false 0 (omega arith) tt))
      (run false 0 (omega arith) tt)

abbrev leaving : System flags SharedMutex Loc
leaving = one 0 (called shared 0 unlock_shared)

leaving-Reach : Reach flags shared_mutex 2 start leaving
unfolding step exec perform suspend_if action
leaving-Reach =
    next (next shared-Reach (call 0 reader unlock_shared (omega arith) refl calls_unlock_shared))
      (run false 0 (omega arith) tt)

assertions_hold_example : Allowed (unlock_shared_loop (pos 1)) leaving.state.mem
unfolding step exec perform suspend_if action
assertions_hold_example =
    assertions_hold flags (λ t. refl) leaving-Reach 0 (unlock_shared_loop (pos 1)) (omega arith)
      refl

-- Task 1 is between the tests of `wait_if` in `lock`; task 0 has found no writer in `unlock`.
abbrev missed : System flags SharedMutex Loc
missed = one 0 (called (one 1 (one 1 (called locked 1 lock))) 0 unlock)

missed-Reach : Reach flags shared_mutex 2 start missed
unfolding step exec perform suspend_if action
missed-Reach =
    next
      (next
        (next
          (next (next locked-Reach (call 1 outside lock (omega arith) refl calls_lock))
            (run false 1 (omega arith) tt))
          (run false 1 (omega arith) tt))
        (call 0 writer unlock (omega arith) refl calls_unlock))
      (run false 0 (omega arith) refl)

lost_wakeup_example :
    (t : System flags SharedMutex Loc) × Reach flags shared_mutex 2 missed t
    × Stranded flags 0 1 missed t
unfolding step exec perform suspend_if action
lost_wakeup_example = lost_wakeup flags 2 0 1 missed (record {
  i_below = omega arith;
  j_below = omega arith;
  distinct = λ e. omega arith;
  releasing = refl;
  waiting = refl;
  locked = refl;
  no_writers = refl;
  no_readers = refl;
})

shared_mutex-LockStep_example :
    AtMostOne 2
      (owners mode flags shared_mutex (called start 0 lock))
      (owners mode flags shared_mutex locked)
unfolding step exec perform suspend_if action
shared_mutex-LockStep_example =
    shared_mutex-LockStep flags (λ t. refl)
      (next here (call 0 outside lock (omega arith) refl calls_lock)) (run false 0 (omega arith) tt)

-- Task 0 writes, task 1 goes to sleep as a reader, and task 0 has stored 0 in `unlock`.
abbrev barred : System flags SharedMutex Loc
barred = one 1 (one 1 (one 1 (one 1 (called locked 1 lock_shared))))

abbrev cleared : System flags SharedMutex Loc
cleared = one 0 (one 0 (called barred 0 unlock))

cleared-Reach : Reach flags shared_mutex 2 start cleared
unfolding step exec perform suspend_if action
cleared-Reach =
    next
      (next
        (next
          (next
            (next
              (next
                (next
                  (next locked-Reach
                    (call 1 outside lock_shared (omega arith) refl calls_lock_shared))
                  (run false 1 (omega arith) tt))
                (run false 1 (omega arith) tt))
              (run false 1 (omega arith) tt))
            (run false 1 (omega arith) tt))
          (call 0 writer unlock (omega arith) refl calls_unlock))
        (run false 0 (omega arith) refl))
      (run false 0 (omega arith) tt)

reader_woken_example : (j : ℕ) × (j < 2) × Wakes flags shared_mutex j 1 cleared
unfolding step exec perform suspend_if action
reader_woken_example = reader_woken flags (λ t. refl) cleared-Reach 1 refl refl refl

-- Task 0 has locked and unlocked.
abbrev released : System flags SharedMutex Loc
released = one 0 (one 0 (one 0 (one 0 (called locked 0 unlock))))

released-Reach : Reach flags shared_mutex 1 start released
unfolding step exec perform suspend_if action
released-Reach =
    next
      (next
        (next
          (next
            (next
              (next (next here (call 0 outside lock (omega arith) refl calls_lock))
                (run false 0 (omega arith) tt))
              (call 0 writer unlock (omega arith) refl calls_unlock))
            (run false 0 (omega arith) refl))
          (run false 0 (omega arith) tt))
        (run false 0 (omega arith) tt))
      (run false 0 (omega arith) tt)

destructor_asserts_example : destructible released.state.mem released.state.queue ≡ true
unfolding step exec perform suspend_if action
destructor_asserts_example =
    destructor_asserts flags (λ t. refl) released-Reach (λ j lt. ground arith)
