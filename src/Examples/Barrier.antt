-- ===== src/Examples/Barrier.antt =====
-- Two tasks and a barrier for two arrivals that counts its phases: task 1 arrives and sleeps, then
-- task 0 arrives.
use coopsync_tbb.Base.{ℕ, ◌+◌, ◌<◌, ◌≡◌, refl, true, false, not, arith, ◌==◌}
use coopsync_tbb.Tbb.{flags}
use coopsync_tbb.Machine.{
  System, perform, suspend_if, exec, step, run, call, initial, Reach, here, next,
}
use coopsync_tbb.Barrier.{
  Barrier, Loc, outside, arrive, action, calls_arrive, calls_arrive_and_wait, barrier, new_barrier,
  next_phase, is_previous,
}
use coopsync_tbb.Machine.Alarm.Alone.{Wakes}
use coopsync_tbb.Barrier.Wake.{barrier_woken}
use coopsync_tbb.Barrier.Phase.{previous_phase_wraps}
use coopsync_tbb.Examples.{awake, called}

abbrev count_phase : ℕ → ℕ
count_phase d = d + 1

abbrev start : System flags (Barrier ℕ) Loc
start = initial flags (barrier count_phase) (new_barrier 2 0) (λ _. outside) awake

abbrev one : ℕ → System flags (Barrier ℕ) Loc → System flags (Barrier ℕ) Loc
one i s = step flags (barrier count_phase) false i s

abbrev asleep : System flags (Barrier ℕ) Loc
asleep = one 1 (one 1 (one 1 (one 1 (one 1 (called start 1 (arrive 1 true))))))

asleep-Reach : Reach flags (barrier count_phase) 2 start asleep
unfolding step exec perform suspend_if action
asleep-Reach =
    next
      (next
        (next
          (next
            (next
              (next here (call 1 outside (arrive 1 true) (omega arith) refl calls_arrive_and_wait))
              (run false 1 (omega arith) tt))
            (run false 1 (omega arith) (omega arith)))
          (run false 1 (omega arith) tt))
        (run false 1 (omega arith) tt))
      (run false 1 (omega arith) tt)

abbrev ended : System flags (Barrier ℕ) Loc
ended = one 0 (one 0 (one 0 (one 0 (one 0 (one 0 (called asleep 0 (arrive 1 false)))))))

ended-Reach : Reach flags (barrier count_phase) 2 start ended
unfolding step exec perform suspend_if action
ended-Reach =
    next
      (next
        (next
          (next
            (next
              (next
                (next asleep-Reach
                  (call 0 outside (arrive 1 false) (omega arith) refl (calls_arrive 1)))
                (run false 0 (omega arith) tt))
              (run false 0 (omega arith) (omega arith)))
            (run false 0 (omega arith) tt))
          (run false 0 (omega arith) tt))
        (run false 0 (omega arith) tt))
      (run false 0 (omega arith) tt)

barrier_woken_example : (j : ℕ) × (j < 2) × Wakes flags (barrier count_phase) j 1 ended
unfolding step exec perform suspend_if action
barrier_woken_example =
    barrier_woken count_phase flags 2 0 (λ t. refl) ended-Reach 1 0 refl refl refl

previous_phase_wraps_example : is_previous 255 (next_phase 255) ≡ not (◌==◌ 255 255)
previous_phase_wraps_example = previous_phase_wraps 255 (omega arith)
