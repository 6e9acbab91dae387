-- ===== src/Examples/Semaphore.antt =====
-- Two tasks and a semaphore with one permit: task 0 acquires it, task 1 goes to sleep, task 0
-- releases it.
use coopsync_tbb.Base.{ℕ, ◌+◌, ◌<◌, ◌≤◌, ◌≡◌, refl, false, arith, total}
use coopsync_tbb.Tbb.{flags}
use coopsync_tbb.Machine.{
  place, System, perform, suspend_if, exec, step, run, call, initial, Reach, here, next,
}
use coopsync_tbb.Semaphore.Storage.{Chosen, int_max_value_bits_least}
use coopsync_tbb.Semaphore.Counting.{
  Semaphore, Loc, outside, acquire, release, action, calls_acquire, calls_release, semaphore,
}
use coopsync_tbb.Semaphore.Counting.Permits.{permits, permits_conserved, release_in_bounds}
use coopsync_tbb.Machine.Deadlock.{Runs}
use coopsync_tbb.Semaphore.Counting.Deadlock.{counting_deadlock_free}
use coopsync_tbb.Examples.{awake, called}

abbrev limit : ℕ
limit = 127

int_max_value_bits_least_example : (bits : ℕ) × (most : ℕ) × Chosen 300 bits most
int_max_value_bits_least_example = int_max_value_bits_least 300 (omega arith) (ground arith)

abbrev start : System flags Semaphore Loc
start = initial flags (semaphore limit) (record { counter = 1 }) (λ _. outside 0) awake

abbrev one : ℕ → System flags Semaphore Loc → System flags Semaphore Loc
one i s = step flags (semaphore limit) false i s

abbrev taken : System flags Semaphore Loc
taken = one 0 (one 0 (called start 0 (acquire 0)))

taken-Reach : Reach flags (semaphore limit) 2 start taken
unfolding step exec perform action
taken-Reach =
    next
      (next (next here (call 0 (outside 0) (acquire 0) (omega arith) refl (calls_acquire 0)))
        (run false 0 (omega arith) tt))
      (run false 0 (omega arith) tt)

abbrev asleep : System flags Semaphore Loc
asleep = one 1 (one 1 (one 1 (one 1 (called taken 1 (acquire 0)))))

asleep-Reach : Reach flags (semaphore limit) 2 start asleep
unfolding step exec perform suspend_if action
asleep-Reach =
    next
      (next
        (next
          (next
            (next taken-Reach (call 1 (outside 0) (acquire 0) (omega arith) refl (calls_acquire 0)))
            (run false 1 (omega arith) tt))
          (run false 1 (omega arith) tt))
        (run false 1 (omega arith) tt))
      (run false 1 (omega arith) tt)

abbrev releasing : System flags Semaphore Loc
releasing = called asleep 0 (release 0 1)

releasing-Reach : Reach flags (semaphore limit) 2 start releasing
unfolding step exec perform suspend_if action
releasing-Reach =
    next asleep-Reach
      (call 0 (outside 1) (release 0 1) (omega arith) refl (calls_release 1 0 1 refl))

free-Reach : Reach flags (semaphore limit) 2 start (one 0 releasing)
unfolding step exec perform suspend_if action
free-Reach = next releasing-Reach (run false 0 (omega arith) (omega arith))

permits_conserved_example :
    releasing.state.mem.counter + total 2 (λ j. permits (place (releasing.pc j)))
    ≡ 1 + total 2 (λ _. 0)
permits_conserved_example = permits_conserved flags limit 1 releasing-Reach

release_in_bounds_example : releasing.state.mem.counter + 1 ≤ limit
unfolding step exec perform suspend_if action
release_in_bounds_example =
    release_in_bounds flags limit 1 releasing-Reach (omega arith) 0 0 1 (omega arith) refl

counting_deadlock_free_example :
    (t : System flags Semaphore Loc) × Runs flags (semaphore limit) 2 t (one 0 releasing)
    × (t.state.mem.counter < (one 0 releasing).state.mem.counter)
unfolding step exec perform suspend_if action
counting_deadlock_free_example =
    counting_deadlock_free flags limit 1 (omega arith) (λ t. refl) free-Reach 1 refl (omega arith)
