-- ===== src/Examples/SharedState.antt =====
-- Two tasks and a shared state: task 1 gets the value that task 0 sets.
use coopsync_tbb.Base.{ℕ, ◌<◌, ◌≡◌, ◌⊎◌, inr, refl, true, false, arith}
use coopsync_tbb.Tbb.{flags}
use coopsync_tbb.Machine.{
  System, perform, suspend_if, exec, step, run, call, initial, Reach, here, next,
}
use coopsync_tbb.Machine.Alarm.Alone.{Wakes}
use coopsync_tbb.Future.{got}
use coopsync_tbb.Future.Concurrent.{
  Cell, new_cell, Loc, outside, set_value, wait, action, calls_get, calls_set_value, shared_state,
}
use coopsync_tbb.Future.Concurrent.Ready.{future_woken}
use coopsync_tbb.Future.Concurrent.Agreement.Invariant.{result}
use coopsync_tbb.Future.Concurrent.Agreement.{is_defined, get_result, settled_stable}
use coopsync_tbb.Examples.{awake, called}

abbrev keeps : ℕ → ℕ ⊎ ℕ
keeps v = inr v

abbrev start : System flags (Cell ℕ ℕ) (Loc ℕ ℕ)
start = initial flags (shared_state keeps) new_cell (λ _. outside) awake

abbrev one : ℕ → System flags (Cell ℕ ℕ) (Loc ℕ ℕ) → System flags (Cell ℕ ℕ) (Loc ℕ ℕ)
one i s = step flags (shared_state keeps) false i s

-- Task 1 sleeps, task 0 is about to exchange the status.
abbrev asleep : System flags (Cell ℕ ℕ) (Loc ℕ ℕ)
asleep = called (one 1 (one 1 (called start 1 wait))) 0 (set_value 7)

asleep-Reach : Reach flags (shared_state keeps) 2 start asleep
unfolding step exec perform suspend_if action
asleep-Reach =
    next
      (next
        (next (next here (call 1 outside wait (omega arith) refl calls_get))
          (run false 1 (omega arith) tt))
        (run false 1 (omega arith) tt))
      (call 0 outside (set_value 7) (omega arith) refl (calls_set_value 7))

-- The status is stored, the waiters are not resumed yet.
abbrev settled : System flags (Cell ℕ ℕ) (Loc ℕ ℕ)
settled = one 0 (one 0 (one 0 asleep))

settled-Reach : Reach flags (shared_state keeps) 2 start settled
unfolding step exec perform suspend_if action
settled-Reach =
    next (next (next asleep-Reach (run false 0 (omega arith) tt)) (run false 0 (omega arith) tt))
      (run false 0 (omega arith) tt)

abbrev woken : System flags (Cell ℕ ℕ) (Loc ℕ ℕ)
woken = one 1 (one 0 (one 0 settled))

settled-woken : Reach flags (shared_state keeps) 2 settled woken
unfolding step exec perform suspend_if action
settled-woken =
    next (next (next here (run false 0 (omega arith) tt)) (run false 0 (omega arith) tt))
      (run false 1 (omega arith) tt)

woken-Reach : Reach flags (shared_state keeps) 2 start woken
unfolding step exec perform suspend_if action
woken-Reach =
    next (next (next settled-Reach (run false 0 (omega arith) tt)) (run false 0 (omega arith) tt))
      (run false 1 (omega arith) tt)

abbrev over : System flags (Cell ℕ ℕ) (Loc ℕ ℕ)
over = one 1 (one 1 woken)

over-Reach : Reach flags (shared_state keeps) 2 start over
unfolding step exec perform suspend_if action
over-Reach = next (next woken-Reach (run false 1 (omega arith) tt)) (run false 1 (omega arith) tt)

future_woken_example : (j : ℕ) × (j < 2) × Wakes flags (shared_state keeps) j 1 settled
unfolding step exec perform suspend_if action
future_woken_example = future_woken keeps flags (λ t. refl) settled-Reach 1 refl refl

get_result_example : (got 7 ≡ result over.state.mem) × (is_defined {V = ℕ} {E = ℕ} (got 7) ≡ true)
unfolding step exec perform suspend_if action
get_result_example = get_result keeps flags 2 (λ t. refl) over-Reach 1 (got 7) (omega arith) refl

settled_stable_example : woken.state.mem ≡ settled.state.mem
unfolding step exec perform suspend_if action
settled_stable_example = settled_stable keeps flags 2 (λ t. refl) settled-Reach settled-woken refl
