-- ===== src/Examples/Latch.antt =====
-- Two tasks and a latch for one arrival: task 1 waits, task 0 arrives.
use coopsync_tbb.Base.{ℕ, ◌<◌, refl, false, arith}
use coopsync_tbb.Tbb.{flags}
use coopsync_tbb.Machine.{
  System, perform, suspend_if, exec, step, run, call, initial, Reach, here, next,
}
use coopsync_tbb.Latch.{
  Latch, Loc, outside, wait, count_down, action, calls_wait, calls_count_down, latch,
}
use coopsync_tbb.Machine.Alarm.Alone.{Wakes}
use coopsync_tbb.Latch.Release.{latch_woken}
use coopsync_tbb.Examples.{awake, called}

abbrev start : System flags Latch Loc
start = initial flags latch (record { counter = 1 }) (λ _. outside) awake

abbrev one : ℕ → System flags Latch Loc → System flags Latch Loc
one i s = step flags latch false i s

abbrev arrived : System flags Latch Loc
arrived = one 0 (called (one 1 (one 1 (one 1 (called start 1 wait)))) 0 (count_down 1 false))

arrived-Reach : Reach flags latch 2 start arrived
unfolding step exec perform suspend_if action
arrived-Reach =
    next
      (next
        (next
          (next
            (next (next here (call 1 outside wait (omega arith) refl calls_wait))
              (run false 1 (omega arith) tt))
            (run false 1 (omega arith) tt))
          (run false 1 (omega arith) tt))
        (call 0 outside (count_down 1 false) (omega arith) refl (calls_count_down 1)))
      (run false 0 (omega arith) (omega arith))

latch_woken_example : (j : ℕ) × (j < 2) × Wakes flags latch j 1 arrived
unfolding step exec perform suspend_if action
latch_woken_example = latch_woken flags 1 (λ t. refl) arrived-Reach 1 refl refl
