-- ===== src/Examples/BarrierCompletion.antt =====
-- Two tasks and a barrier for one arrival: task 0 has arrived and completes the phase.
use coopsync_tbb.Base.{ℕ, ◌+◌, ◌≡◌, refl, false, arith}
use coopsync_tbb.Tbb.{flags}
use coopsync_tbb.Machine.{at, System, perform, exec, step, run, call, initial, Reach, here, next}
use coopsync_tbb.Barrier.{
  Barrier, Loc, outside, arrive, complete, action, calls_arrive, barrier, new_barrier,
}
use coopsync_tbb.Barrier.Completion.{one_completion}
use coopsync_tbb.Barrier.Completion.Invariant.{positive_barrier}
use coopsync_tbb.Barrier.ZeroArrival.{twice_completed}
use coopsync_tbb.Examples.{awake, called}

abbrev count_phase : ℕ → ℕ
count_phase d = d + 1

abbrev start : System flags (Barrier ℕ) Loc
start = initial flags (positive_barrier count_phase) (new_barrier 1 0) (λ _. outside) awake

abbrev one : ℕ → System flags (Barrier ℕ) Loc → System flags (Barrier ℕ) Loc
one i s = step flags (positive_barrier count_phase) false i s

abbrev last_arrived : System flags (Barrier ℕ) Loc
last_arrived = one 0 (one 0 (called start 0 (arrive 1 false)))

last_arrived-Reach : Reach flags (positive_barrier count_phase) 2 start last_arrived
unfolding step exec perform action
last_arrived-Reach =
    next
      (next (next here (call 0 outside (arrive 1 false) (omega arith) refl (calls_arrive 1)))
        (run false 0 (omega arith) tt))
      (run false 0 (omega arith) (omega arith, omega arith))

one_completion_example : ◌≡◌ {A = ℕ} 0 0 × (last_arrived.state.mem.expected ≡ 0)
unfolding step exec perform action
one_completion_example =
    one_completion count_phase flags 1 0 (λ t. refl) last_arrived-Reach 0 0 (omega arith)
      (omega arith) refl refl

twice_completed_example :
    (t : System flags (Barrier ℕ) Loc) × Reach flags (barrier count_phase) 2 last_arrived t
    × (t.pc 0 ≡ at (complete 0 false))
    × (t.pc 1 ≡ at (complete 0 false))
unfolding step exec perform action
twice_completed_example =
    twice_completed count_phase flags 2 0 1 last_arrived 0 false (omega arith) (λ e. omega arith)
      refl refl refl
