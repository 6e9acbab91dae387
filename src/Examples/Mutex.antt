-- ===== src/Examples/Mutex.antt =====
-- Two tasks and a `mutex`: task 0 takes it, task 1 goes to sleep, task 0 releases it.
use coopsync_tbb.Base.{ℕ, ◌≡◌, refl, true, arith}
use coopsync_tbb.Tbb.{flags}
use coopsync_tbb.Machine.{
  System, perform, suspend_if, exec, step, run, call, initial, Reach, here, next,
}
use coopsync_tbb.Mutex.{
  Mutex, Loc, outside, lock, owner, unlock, action, calls_lock, calls_unlock, mutex, unlocked,
}
use coopsync_tbb.Mutex.Exclusion.{mutual_exclusion}
use coopsync_tbb.Machine.Deadlock.{Runs}
use coopsync_tbb.Mutex.Deadlock.{mutex_deadlock_free}
use coopsync_tbb.Examples.{awake, called}

abbrev start : System flags Mutex Loc
start = initial flags mutex unlocked (λ _. outside) awake

abbrev owned : System flags Mutex Loc
owned = step flags mutex true 0 (called start 0 lock)

owned-Reach : Reach flags mutex 2 start owned
unfolding step exec perform action
owned-Reach =
    next (next here (call 0 outside lock (omega arith) refl calls_lock))
      (run true 0 (omega arith) tt)

abbrev asleep : System flags Mutex Loc
asleep =
    step flags mutex true 1
      (step flags mutex true 1 (step flags mutex true 1 (called owned 1 lock)))

asleep-Reach : Reach flags mutex 2 start asleep
unfolding step exec perform suspend_if action
asleep-Reach =
    next
      (next
        (next (next owned-Reach (call 1 outside lock (omega arith) refl calls_lock))
          (run true 1 (omega arith) tt))
        (run true 1 (omega arith) tt))
      (run true 1 (omega arith) tt)

abbrev free : System flags Mutex Loc
free = step flags mutex true 0 (called asleep 0 unlock)

free-Reach : Reach flags mutex 2 start free
unfolding step exec perform suspend_if action
free-Reach =
    next (next asleep-Reach (call 0 owner unlock (omega arith) refl calls_unlock))
      (run true 0 (omega arith) refl)

mutual_exclusion_example : ◌≡◌ {A = ℕ} 0 0
unfolding step exec perform suspend_if action
mutual_exclusion_example =
    mutual_exclusion flags asleep-Reach 0 0 (omega arith) (omega arith) refl refl

mutex_deadlock_free_example :
    (t : System flags Mutex Loc) × Runs flags mutex 2 t free × (t.state.mem.locked ≡ true)
unfolding step exec perform suspend_if action
mutex_deadlock_free_example = mutex_deadlock_free flags (λ t. refl) free-Reach 1 refl refl
