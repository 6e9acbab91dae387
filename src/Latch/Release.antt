-- ===== src/Latch/Release.antt =====
-- The wake-up of `latch` in src/latch.cpp.
use coopsync_tbb.Base.{
  ℕ, ◌-◌, ◌<◌, ◌≡◌, ◌≢◌, ◌⊎◌, inl, inr, refl, Bool, true, false, not, arith, ◌==◌, count,
  Bool-cases,
}
use coopsync_tbb.Tbb.{Tbb}
use coopsync_tbb.Machine.{primary, resume_all, at, place, System, initial, Reach}
use coopsync_tbb.Machine.Occupancy.{held}
use coopsync_tbb.Machine.Waits.{ActionWaits}
use coopsync_tbb.Machine.Alarm.{Alerts, WaitsFor, OnPrimary, Alarmed, sounds}
use coopsync_tbb.Machine.Alarm.Heard.{heard}
use coopsync_tbb.Machine.Alarm.Alone.{Prompt, Wakes, woken}
use coopsync_tbb.Machine.Gate.{Enters, WaitsClosed, Anywhere, Gated, past-opened}
use coopsync_tbb.Latch.{
  Latch, Loc, outside, count_down, wake, wait, slow, passed, action, Call, calls_count_down,
  calls_arrive_and_wait, calls_wait, returns, latch, try_wait, after_count_down,
}

-- The last arrival, on its way to wake the waiters.
abbrev pub is_waking : Loc → Bool
is_waking (wake _) = true
is_waking _ = false

-- The tasks that wait for the counter to be zero.
abbrev counting : Loc → Latch → Bool
counting passed m = not (try_wait m)
counting _ m = false

-- Tasks that have seen the counter at zero.
abbrev is_past : Loc → Bool
is_past passed = true
is_past (wake _) = true
is_past _ = false

counting_on : (m m' : Latch) (k : Loc) → m'.counter ≢ 0 → counting k m ≡ true → counting k m' ≡ true
counting_on m m' passed ne h = ground arith
counting_on m m' outside ne h = absurd (ground arith)
counting_on m m' (count_down u b) ne h = absurd (ground arith)
counting_on m m' (wake b) ne h = absurd (ground arith)
counting_on m m' wait ne h = absurd (ground arith)
counting_on m m' slow ne h = absurd (ground arith)

counting_over : (m : Latch) (k : Loc) → m.counter ≡ 0 → counting k m ≡ false
counting_over m passed z = ground arith
counting_over m outside z = refl
counting_over m (count_down u b) z = refl
counting_over m (wake b) z = refl
counting_over m wait z = refl
counting_over m slow z = refl

alerts :
    (luck : Bool) (l : Loc) (m : Latch)
    → latch.Allowed l m
    → Alerts primary counting is_waking l m (action luck l m)
unfolding action
alerts luck outside m a = inr (refl, λ k h. h)
alerts luck (count_down u b) m a = elim (Bool-cases (m.counter == u)) [
  | inl last ↦ inl (rw last refl)
  | inr more ↦
      inr (refl, λ k h. counting_on m (record { counter = m.counter - u }) k (ground arith) h)
]
alerts luck (wake b) m a = inl refl
alerts luck wait m a = inr (refl, λ k h. h)
alerts luck slow m a = refl
alerts luck passed m a = inr (refl, λ k h. h)

alarm_waits :
    (luck : Bool) (l : Loc) (m : Latch)
    → ActionWaits (WaitsFor primary counting is_waking) OnPrimary (action luck l m)
unfolding action
alarm_waits luck slow m = (λ m'. inl refl, refl)
alarm_waits luck outside m = tt
alarm_waits luck (count_down u b) m = tt
alarm_waits luck (wake b) m = tt
alarm_waits luck wait m = tt
alarm_waits luck passed m = tt

alarm_calls : (l l' : Loc) → Call l l' → is_waking l ≡ true → is_waking l' ≡ true
alarm_calls l l' (calls_count_down u) h = absurd (ground arith)
alarm_calls l l' (calls_arrive_and_wait u) h = absurd (ground arith)
alarm_calls l l' calls_wait h = absurd (ground arith)
alarm_calls l l' returns h = absurd (ground arith)

latch-Alarmed : Alarmed primary counting is_waking OnPrimary latch
latch-Alarmed = record { acts = alerts; waits = alarm_waits; calls = alarm_calls }

wakes_at_once :
    (l : Loc) (m : Latch)
    → is_waking l ≡ true
    → latch.Allowed l m × ((l' : Loc) × (action true l m ≡ resume_all primary l'))
unfolding action
wakes_at_once (wake b) m loud = (tt, (after_count_down b, refl))
wakes_at_once outside m loud = absurd (ground arith)
wakes_at_once (count_down u b) m loud = absurd (ground arith)
wakes_at_once wait m loud = absurd (ground arith)
wakes_at_once slow m loud = absurd (ground arith)
wakes_at_once passed m loud = absurd (ground arith)

latch-Prompt : Prompt primary is_waking latch
latch-Prompt = record { quick = wakes_at_once }

enters :
    (luck : Bool) (l : Loc) (m : Latch)
    → latch.Allowed l m
    → Enters try_wait is_past l m (action luck l m)
unfolding action
enters luck outside m a = (λ h. h, λ p h. absurd (ground arith))
enters luck (count_down u b) m a = (λ h. ground arith, λ p h. ground arith)
enters luck (wake b) m a = refl
enters luck wait m a = (λ h. h, λ p h. ground arith)
enters luck slow m a = tt
enters luck passed m a = (λ h. h, λ p h. p refl)

gate_waits :
    (luck : Bool) (l : Loc) (m : Latch)
    → ActionWaits (WaitsClosed try_wait is_past) (Anywhere try_wait is_past) (action luck l m)
unfolding action
gate_waits luck slow m = (λ m'. refl, tt)
gate_waits luck outside m = tt
gate_waits luck (count_down u b) m = tt
gate_waits luck (wake b) m = tt
gate_waits luck wait m = tt
gate_waits luck passed m = tt

gate_calls : (l l' : Loc) → Call l l' → is_past l' ≡ true → is_past l ≡ true
gate_calls l l' (calls_count_down u) h = absurd (ground arith)
gate_calls l l' (calls_arrive_and_wait u) h = absurd (ground arith)
gate_calls l l' calls_wait h = absurd (ground arith)
gate_calls l l' returns h = absurd (ground arith)

latch-Gated : Gated try_wait is_past latch
latch-Gated = record { acts = enters; waits = gate_waits; calls = gate_calls }

module _ (tbb : Tbb) (expected : ℕ) {n : ℕ} {w : tbb.World} {s : System tbb Latch Loc}
    (quiet : (t : ℕ) → tbb.is_suspended w t ≡ false)
    (r : Reach tbb latch n
      (initial tbb latch (record { counter = expected }) (λ _. outside) w)
      s) where
  -- Whenever a task is about to return from `wait`, the counter is zero.
  pub passed_at_zero : (i : ℕ) → s.pc i ≡ at passed → s.state.mem.counter ≡ 0
  passed_at_zero i e =
      let zero' =
        past-opened try_wait is_past tbb latch n (record { counter = expected }) (λ _. outside) w
          latch-Gated quiet (λ j. refl) r i passed e refl in
      ground arith

  -- In a reachable state where a task is suspended and the counter is zero, some task is about to
  -- resume all waiters, or is resuming this one.
  pub latch_no_lost_wakeup :
      (i : ℕ)
      → tbb.is_suspended s.state.world i ≡ true
      → s.state.mem.counter ≡ 0
      → (j : ℕ) × (j < n)
        × ((sounds primary is_waking (s.pc j) ≡ true) ⊎ (0 < count i (held primary (s.pc j))))
  latch_no_lost_wakeup i sus zero' =
      heard counting is_waking tbb latch n (record { counter = expected }) (λ _. outside) w
        latch-Alarmed quiet r i sus (counting_over s.state.mem (place (s.pc i)) zero')

  -- In a reachable state where a task is suspended and the counter is zero, some task has a run of
  -- its own, in which no other task takes a step and after which the suspended one is awake.
  pub latch_woken :
      (i : ℕ)
      → tbb.is_suspended s.state.world i ≡ true
      → s.state.mem.counter ≡ 0
      → (j : ℕ) × (j < n) × Wakes tbb latch j i s
  latch_woken i sus zero' =
      woken counting is_waking tbb latch n (record { counter = expected }) (λ _. outside) w
        latch-Alarmed latch-Prompt quiet r i sus (counting_over s.state.mem (place (s.pc i)) zero')
