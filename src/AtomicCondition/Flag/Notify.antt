-- ===== src/AtomicCondition/Flag/Notify.antt =====
-- The notifications of include/coopsync_tbb/atomic_flag.hpp.
use coopsync_tbb.Base.{
  ℕ, ◌<◌, ◌≡◌, ◌⊎◌, inl, inr, refl, subst, Bool, true, false, not, arith, count,
}
use coopsync_tbb.Tbb.{Tbb}
use coopsync_tbb.Machine.{primary, place, System, initial, Reach}
use coopsync_tbb.Machine.Occupancy.{held}
use coopsync_tbb.Machine.Waits.{ActionWaits}
use coopsync_tbb.Machine.Alarm.{Alerts, WaitsFor, OnPrimary, Alarmed, sounds}
use coopsync_tbb.Machine.Alarm.Heard.{heard}
use coopsync_tbb.AtomicCondition.Atomic.{Order}
use coopsync_tbb.AtomicCondition.Flag.{
  Flag, Loc, outside, clear, cleared, test_and_set, was_set, test, tested, wait, sleep, notify_one,
  notify_all, bool_eq, action, Allowed, Call, calls_clear, clear_notifies, calls_test_and_set,
  set_notifies, set_returns, calls_test, test_returns, calls_wait, calls_notify_one,
  calls_notify_all, atomic_flag,
}

-- A task that has changed the flag, up to the notification of all waiters.
abbrev pub is_notifying : Loc → Bool
is_notifying cleared = true
is_notifying (was_set b) = not b
is_notifying notify_all = true
is_notifying _ = false

-- The flag has still the value that the task waits to see changed.
abbrev unchanged : Loc → Flag → Bool
unchanged (wait old o) m = bool_eq old m.value
unchanged _ m = false

test_and_set-Alerts :
    (b : Bool) (m : Flag) (o : Order)
    → m.value ≡ b
    → Alerts primary unchanged is_notifying (test_and_set o) m (action false (test_and_set o) m)
unfolding action
test_and_set-Alerts true m o e =
    inr (refl, λ k h. subst (λ v. unchanged k (record { value = v }) ≡ true) e h)
test_and_set-Alerts false m o e = inl (rw e refl)

acts :
    (luck : Bool) (l : Loc) (m : Flag)
    → Allowed l m
    → Alerts primary unchanged is_notifying l m (action luck l m)
unfolding action
acts luck outside m a = inr (refl, λ k h. h)
acts luck (clear o) m a = inl refl
acts luck cleared m a = inl refl
acts luck (test_and_set o) m a = test_and_set-Alerts m.value m o refl
acts luck (was_set true) m a = inr (refl, λ k h. h)
acts luck (was_set false) m a = inl refl
acts luck (test o) m a = inr (refl, λ k h. h)
acts luck (tested b) m a = inr (refl, λ k h. h)
acts luck (wait old o) m a = inr (refl, λ k h. h)
acts luck (sleep old o) m a = refl
acts luck notify_one m a = refl
acts luck notify_all m a = inl refl

waits :
    (luck : Bool) (l : Loc) (m : Flag)
    → ActionWaits (WaitsFor primary unchanged is_notifying) OnPrimary (action luck l m)
unfolding action
waits luck (sleep old o) m = (λ m'. inl refl, refl)
waits luck outside m = tt
waits luck (clear o) m = tt
waits luck cleared m = tt
waits luck (test_and_set o) m = tt
waits luck (was_set b) m = tt
waits luck (test o) m = tt
waits luck (tested b) m = tt
waits luck (wait old o) m = tt
waits luck notify_one m = tt
waits luck notify_all m = tt

calls : (l l' : Loc) → Call l l' → is_notifying l ≡ true → is_notifying l' ≡ true
calls l l' (calls_clear o) h = absurd (ground arith)
calls l l' clear_notifies h = refl
calls l l' (calls_test_and_set o) h = absurd (ground arith)
calls l l' (set_notifies b) h = refl
calls l l' set_returns h = absurd (ground arith)
calls l l' (calls_test o) h = absurd (ground arith)
calls l l' (test_returns b) h = absurd (ground arith)
calls l l' (calls_wait old o) h = absurd (ground arith)
calls l l' calls_notify_one h = absurd (ground arith)
calls l l' calls_notify_all h = refl

flag-Alarmed : Alarmed primary unchanged is_notifying OnPrimary atomic_flag
flag-Alarmed = record { acts = acts; waits = waits; calls = calls }

-- If every task that clears the flag, or sets it when it was clear, then notifies all: in a reachable
-- state where a suspended task waits for a value of the flag that is no longer the current one, some
-- task is about to notify all waiters, because it has changed the flag or by a call of
-- `notify_all`, or is resuming this one.
pub flag_no_lost_wakeup :
    (tbb : Tbb) (v : Bool) {n : ℕ} {w : tbb.World} {s : System tbb Flag Loc}
    → ((t : ℕ) → tbb.is_suspended w t ≡ false)
    → Reach tbb atomic_flag n (initial tbb atomic_flag (record { value = v }) (λ _. outside) w) s
    → (i : ℕ) (old : Bool) (o : Order) → tbb.is_suspended s.state.world i ≡ true
    → place (s.pc i) ≡ wait old o
    → bool_eq old s.state.mem.value ≡ false
    → (j : ℕ) × (j < n)
      × ((sounds primary is_notifying (s.pc j) ≡ true) ⊎ (0 < count i (held primary (s.pc j))))
flag_no_lost_wakeup tbb v {n} {w} {s} quiet r i old o sus at_old changed =
    heard unchanged is_notifying tbb atomic_flag n (record { value = v }) (λ _. outside) w
      flag-Alarmed quiet r i sus (rw at_old changed)
