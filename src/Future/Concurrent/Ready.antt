-- ===== src/Future/Concurrent/Ready.antt =====
-- The readiness of `shared_state` in include/coopsync_tbb/future.hpp: what tasks wait for.
use coopsync_tbb.Base.{
  ℕ, ◌<◌, ◌≡◌, ◌⊎◌, inl, inr, refl, Bool-cases, Bool, true, false, not, ◌&&◌, arith, count,
}
use coopsync_tbb.Tbb.{Tbb}
use coopsync_tbb.Machine.{primary, resume_all, at, System, initial, Reach}
use coopsync_tbb.Machine.Occupancy.{held}
use coopsync_tbb.Machine.Alarm.{Alerts, WaitsFor, OnPrimary, Alarmed, sounds}
use coopsync_tbb.Machine.Alarm.Heard.{heard}
use coopsync_tbb.Machine.Alarm.Alone.{Prompt, Wakes, woken}
use coopsync_tbb.Machine.Gate.{Enters, WaitsClosed, Anywhere, Gated, past-opened}
use coopsync_tbb.Future.{Status, empty, value, exception, broken, transition, is_empty, ready}
use coopsync_tbb.Future.Concurrent.{
  Cell, new_cell, Loc, outside, set_value, emplace, publish_value, set_exception, keep,
  publish_exception, break, wake, refused, wait, look, fetch, finished, try_exchange, try_emplace,
  action, Call, calls_set_value, calls_set_exception, calls_break, calls_get, catches, returns,
  shared_state,
}
use coopsync_tbb.Future.Concurrent.Waits.{waits}

-- A task that has made the state ready, on its way to wake the waiters.
abbrev pub is_waking : {V E : Type 0} → Loc V E → Bool
is_waking wake = true
is_waking _ = false

-- A task that goes on with `get` after its wait, or wakes the waiters.
abbrev pub is_past : {V E : Type 0} → Loc V E → Bool
is_past look = true
is_past (fetch st) = true
is_past (finished g) = true
is_past wake = true
is_past _ = false

abbrev pub is_ready : {V E : Type 0} → Cell V E → Bool
is_ready m = ready m.status

abbrev is_look : {V E : Type 0} → Loc V E → Bool
is_look look = true
is_look _ = false

-- A task in the wait waits for the state to be ready.
abbrev unready : {V E : Type 0} → Loc V E → Cell V E → Bool
unready l m = is_look l && not (is_ready m)

module _ {V E : Type 0} (construct : V → E ⊎ V) where
  empty_unready : (m : Cell V E) → is_empty m.status ≡ true → is_ready m ≡ false
  empty_unready m e =
      elim m.status as (λ st. is_empty st ≡ true → ready st ≡ false) [
        | empty ↦ λ h. refl
        | value ↦ λ h. absurd (ground arith)
        | exception ↦ λ h. absurd (ground arith)
        | broken ↦ λ h. absurd (ground arith)
        | transition ↦ λ h. refl
      ]
        e

  exchange-Alerts :
      (l : Loc V E) (m : Cell V E) (desired : Status) (success failure : Loc V E)
      → is_waking l ≡ false
      → (is_waking success ≡ true) ⊎ (ready desired ≡ false)
      → Alerts primary unready is_waking l m (try_exchange m desired success failure)
  exchange-Alerts l m desired success failure quiet to = elim (Bool-cases (is_empty m.status)) [
    | inl free ↦ elim to [
      | inl loud ↦ rw free (inl loud)
      | inr shut ↦ rw free (inr (quiet, λ k h. ground arith))
    ]
    | inr full ↦ rw full (inr (quiet, λ k h. h))
  ]

  emplace-Alerts :
      (v : V) (m : Cell V E) (r : E ⊎ V)
      → Alerts primary unready is_waking (emplace v) m (try_emplace m r)
  emplace-Alerts v m (inl e) = inr (refl, λ k h. h)
  emplace-Alerts v m (inr w) = inr (refl, λ k h. h)

  alerts :
      (luck : Bool) (l : Loc V E) (m : Cell V E)
      → (shared_state construct).Allowed l m
      → Alerts primary unready is_waking l m (action construct luck l m)
  unfolding action
  alerts luck outside m a = inr (refl, λ k h. h)
  alerts luck (set_value v) m a = exchange-Alerts (set_value v) m transition _ _ refl (inr refl)
  alerts luck (emplace v) m a = emplace-Alerts v m (construct v)
  alerts luck publish_value m a = inl refl
  alerts luck (set_exception e) m a =
      exchange-Alerts (set_exception e) m transition _ _ refl (inr refl)
  alerts luck (keep e) m a = inr (refl, λ k h. h)
  alerts luck publish_exception m a = inl refl
  alerts luck break m a = exchange-Alerts break m broken _ _ refl (inl refl)
  alerts luck wake m a = inl refl
  alerts luck (refused e) m a = inr (refl, λ k h. h)
  alerts luck wait m a = refl
  alerts luck look m a = inr (refl, λ k h. h)
  alerts luck (fetch st) m a = inr (refl, λ k h. h)
  alerts luck (finished g) m a = inr (refl, λ k h. h)

  exchange-Enters :
      (l : Loc V E) (m : Cell V E) (desired : Status) (success failure : Loc V E)
      → (is_past success ≡ false) ⊎ (ready desired ≡ true)
      → is_past failure ≡ false
      → Enters is_ready is_past l m (try_exchange m desired success failure)
  exchange-Enters l m desired success failure to stop = elim (Bool-cases (is_empty m.status)) [
    | inl free ↦ rw free (λ h. absurd (ground (arith, empty_unready m free)), λ p h. ground arith)
    | inr full ↦ rw full (λ h. h, λ p h. absurd (ground arith))
  ]

  emplace-Enters :
      (v : V) (m : Cell V E) (r : E ⊎ V) → Enters is_ready is_past (emplace v) m (try_emplace m r)
  emplace-Enters v m (inl e) = (λ h. h, λ p h. absurd (ground arith))
  emplace-Enters v m (inr w) = (λ h. h, λ p h. absurd (ground arith))

  enters :
      (luck : Bool) (l : Loc V E) (m : Cell V E)
      → (shared_state construct).Allowed l m
      → Enters is_ready is_past l m (action construct luck l m)
  unfolding action
  enters luck outside m a = (λ h. h, λ p h. absurd (ground arith))
  enters luck (set_value v) m a = exchange-Enters (set_value v) m transition _ _ (inl refl) refl
  enters luck (emplace v) m a = emplace-Enters v m (construct v)
  enters luck publish_value m a = (λ h. refl, λ p h. refl)
  enters luck (set_exception e) m a =
      exchange-Enters (set_exception e) m transition _ _ (inl refl) refl
  enters luck (keep e) m a = (λ h. h, λ p h. absurd (ground arith))
  enters luck publish_exception m a = (λ h. refl, λ p h. refl)
  enters luck break m a = exchange-Enters break m broken _ _ (inr refl) refl
  enters luck wake m a = refl
  enters luck (refused e) m a = (λ h. h, λ p h. absurd (ground arith))
  enters luck wait m a = tt
  enters luck look m a = (λ h. h, λ p h. p refl)
  enters luck (fetch st) m a = (λ h. h, λ p h. p refl)
  enters luck (finished g) m a = (λ h. h, λ p h. p refl)

  calls_wake : (l l' : Loc V E) → Call l l' → is_waking l ≡ true → is_waking l' ≡ true
  calls_wake l l' (calls_set_value v) h = absurd (ground arith)
  calls_wake l l' (calls_set_exception e) h = absurd (ground arith)
  calls_wake l l' calls_break h = absurd (ground arith)
  calls_wake l l' calls_get h = absurd (ground arith)
  calls_wake l l' (catches e) h = absurd (ground arith)
  calls_wake l l' (returns g) h = absurd (ground arith)

  calls_past : (l l' : Loc V E) → Call l l' → is_past l' ≡ true → is_past l ≡ true
  calls_past l l' (calls_set_value v) h = absurd (ground arith)
  calls_past l l' (calls_set_exception e) h = absurd (ground arith)
  calls_past l l' calls_break h = absurd (ground arith)
  calls_past l l' calls_get h = absurd (ground arith)
  calls_past l l' (catches e) h = absurd (ground arith)
  calls_past l l' (returns g) h = absurd (ground arith)

  shared_state-Alarmed : Alarmed primary unready is_waking OnPrimary (shared_state construct)
  shared_state-Alarmed = record {
    acts = alerts;
    waits = waits construct (WaitsFor primary unready is_waking) OnPrimary (λ m. inl refl) refl;
    calls = calls_wake;
  }

  wakes_at_once :
      (l : Loc V E) (m : Cell V E)
      → is_waking l ≡ true
      → (shared_state construct).Allowed l m
        × ((l' : Loc V E) × (action construct true l m ≡ resume_all primary l'))
  unfolding action
  wakes_at_once wake m loud = (tt, (outside, refl))
  wakes_at_once outside m loud = absurd (ground arith)
  wakes_at_once (set_value v) m loud = absurd (ground arith)
  wakes_at_once (emplace v) m loud = absurd (ground arith)
  wakes_at_once publish_value m loud = absurd (ground arith)
  wakes_at_once (set_exception e) m loud = absurd (ground arith)
  wakes_at_once (keep e) m loud = absurd (ground arith)
  wakes_at_once publish_exception m loud = absurd (ground arith)
  wakes_at_once break m loud = absurd (ground arith)
  wakes_at_once (refused e) m loud = absurd (ground arith)
  wakes_at_once wait m loud = absurd (ground arith)
  wakes_at_once look m loud = absurd (ground arith)
  wakes_at_once (fetch st) m loud = absurd (ground arith)
  wakes_at_once (finished g) m loud = absurd (ground arith)

  shared_state-Prompt : Prompt primary is_waking (shared_state construct)
  shared_state-Prompt = record { quick = wakes_at_once }

  pub shared_state-Gated : Gated is_ready is_past (shared_state construct)
  shared_state-Gated = record {
    acts = enters;
    waits =
        waits construct (WaitsClosed is_ready is_past) (Anywhere (is_ready {V = V} {E = E}) is_past)
          (λ m. refl) tt;
    calls = calls_past;
  }

  module _ (tbb : Tbb) {n : ℕ} {w : tbb.World} {s : System tbb (Cell V E) (Loc V E)}
      (quiet : (t : ℕ) → tbb.is_suspended w t ≡ false)
      (r : Reach tbb
        (shared_state construct)
        n
        (initial tbb (shared_state construct) new_cell (λ _. outside) w)
        s) where
    -- Whenever a task gets past `wait`, the shared state is ready: its assertion holds.
    pub wait_ready : (i : ℕ) → s.pc i ≡ at look → ready s.state.mem.status ≡ true
    wait_ready i e =
        past-opened is_ready is_past tbb (shared_state construct) n new_cell (λ _. outside) w
          shared_state-Gated quiet (λ j. refl) r i look e refl

    -- In a reachable state where a task is suspended in `wait` and the shared state is ready, some
    -- task is about to resume all waiters, or is resuming this one.
    pub future_no_lost_wakeup :
        (i : ℕ)
        → tbb.is_suspended s.state.world i ≡ true
        → ready s.state.mem.status ≡ true
        → (j : ℕ) × (j < n)
          × ((sounds primary is_waking (s.pc j) ≡ true) ⊎ (0 < count i (held primary (s.pc j))))
    future_no_lost_wakeup i sus done =
        heard unready is_waking tbb (shared_state construct) n new_cell (λ _. outside) w
          shared_state-Alarmed quiet r i sus (ground arith)

    -- In a reachable state where a task is suspended in `wait` and the shared state is ready, some
    -- task has a run of its own, in which no other task takes a step and after which the suspended
    -- one is awake.
    pub future_woken :
        (i : ℕ)
        → tbb.is_suspended s.state.world i ≡ true
        → ready s.state.mem.status ≡ true
        → (j : ℕ) × (j < n) × Wakes tbb (shared_state construct) j i s
    future_woken i sus done =
        woken unready is_waking tbb (shared_state construct) n new_cell (λ _. outside) w
          shared_state-Alarmed shared_state-Prompt quiet r i sus (ground arith)
