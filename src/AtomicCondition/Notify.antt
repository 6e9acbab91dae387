-- ===== src/AtomicCondition/Notify.antt =====
-- The notifications of include/coopsync_tbb/atomic_condition.hpp.
use coopsync_tbb.Base.{ℕ, ◌<◌, ◌≡◌, ◌⊎◌, inl, inr, refl, Bool, true, false, arith, count}
use coopsync_tbb.Tbb.{Tbb}
use coopsync_tbb.Machine.{primary, place, System, initial, Reach}
use coopsync_tbb.Machine.Occupancy.{held}
use coopsync_tbb.Machine.Waits.{ActionWaits}
use coopsync_tbb.Machine.Alarm.{Alerts, WaitsFor, OnPrimary, Alarmed, sounds}
use coopsync_tbb.Machine.Alarm.Heard.{heard}
use coopsync_tbb.AtomicCondition.Atomic.{Order}
use coopsync_tbb.AtomicCondition.{
  Condition, Loc, outside, assign, assigned, wait, sleep, notify_one, notify_all, action, Call,
  assigns, notifies_all, calls_wait, calls_notify_one, calls_notify_all, condition,
}

-- A task that has changed the value, up to the notification of all waiters.
abbrev pub is_notifying : {T : Type 0} → Loc T → Bool
is_notifying assigned = true
is_notifying notify_all = true
is_notifying _ = false

module _ {T : Type 0} (same : T → T → Bool) where
  -- The value is still the one that the task waits to see changed.
  abbrev unchanged : Loc T → Condition T → Bool
  unchanged (wait old o) m = same m.value old
  unchanged _ m = false

  acts :
      (luck : Bool) (l : Loc T) (m : Condition T)
      → (condition same).Allowed l m
      → Alerts primary unchanged is_notifying l m (action same luck l m)
  unfolding action
  acts luck outside m a = inr (refl, λ k h. h)
  acts luck (assign v) m a = inl refl
  acts luck assigned m a = inl refl
  acts luck (wait old o) m a = inr (refl, λ k h. h)
  acts luck (sleep old o) m a = refl
  acts luck notify_one m a = refl
  acts luck notify_all m a = inl refl

  waits :
      (luck : Bool) (l : Loc T) (m : Condition T)
      → ActionWaits (WaitsFor primary unchanged is_notifying) OnPrimary (action same luck l m)
  unfolding action
  waits luck (sleep old o) m = (λ m'. inl refl, refl)
  waits luck outside m = tt
  waits luck (assign v) m = tt
  waits luck assigned m = tt
  waits luck (wait old o) m = tt
  waits luck notify_one m = tt
  waits luck notify_all m = tt

  calls : (l l' : Loc T) → Call same l l' → is_notifying l ≡ true → is_notifying l' ≡ true
  calls l l' (assigns v) h = absurd (ground arith)
  calls l l' notifies_all h = refl
  calls l l' (calls_wait old o) h = absurd (ground arith)
  calls l l' calls_notify_one h = absurd (ground arith)
  calls l l' calls_notify_all h = refl

  condition-Alarmed : Alarmed primary unchanged is_notifying OnPrimary (condition same)
  condition-Alarmed = record { acts = acts; waits = waits; calls = calls }

  -- In a reachable state where a suspended task waits for a value that is no longer the current one,
  -- some task is about to notify all waiters, because it has changed the value or by a call of
  -- `notify_all`, or is resuming this one.
  pub changed_no_lost_wakeup :
      (tbb : Tbb) (v : T) {n : ℕ} {w : tbb.World} {s : System tbb (Condition T) (Loc T)}
      → ((t : ℕ) → tbb.is_suspended w t ≡ false)
      → Reach tbb
          (condition same)
          n
          (initial tbb (condition same) (record { value = v }) (λ _. outside) w)
          s
      → (i : ℕ) (old : T) (o : Order) → tbb.is_suspended s.state.world i ≡ true
      → place (s.pc i) ≡ wait old o
      → same s.state.mem.value old ≡ false
      → (j : ℕ) × (j < n)
        × ((sounds primary is_notifying (s.pc j) ≡ true) ⊎ (0 < count i (held primary (s.pc j))))
  changed_no_lost_wakeup tbb v {n} {w} {s} quiet r i old o sus at_old changed =
      heard unchanged is_notifying tbb (condition same) n (record { value = v }) (λ _. outside) w
        condition-Alarmed quiet r i sus (rw at_old changed)
