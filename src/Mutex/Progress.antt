-- ===== src/Mutex/Progress.antt =====
-- The wake-ups of `mutex` in src/mutex.cpp.
use coopsync_tbb.Base.{ℕ, ◌<◌, ◌≤◌, ◌≡◌, refl, Bool, true, false, arith, if◌then◌else◌}
use coopsync_tbb.Tbb.{Tbb}
use coopsync_tbb.Machine.{System, initial, Reach}
use coopsync_tbb.Machine.Wakes.{wakes}
use coopsync_tbb.Machine.Waits.{ActionWaits}
use coopsync_tbb.Machine.Waking.{Wakeful, offer, Offers, WaitsForOffer, Retries, waker}
use coopsync_tbb.Mutex.{
  Mutex, Loc, outside, try, lock, wait, owner, unlock, wake, action, Call, calls_try_lock,
  calls_lock, calls_unlock, mutex, unlocked,
}

abbrev pub avail : Mutex → ℕ
avail m = if m.locked then 0 else 1

-- In the loop of `lock`, or about to wake a waiter.
abbrev pub power : Loc → ℕ
power lock = 1
power wait = 1
power wake = 1
power _ = 0

acts :
    (luck : Bool) (l : Loc) (m : Mutex)
    → mutex.Allowed l m
    → Offers avail power l m (action luck l m)
unfolding action
acts luck outside m a = omega arith
acts luck try m a = ground arith
acts luck lock m a = ground arith
acts luck wait m a = (omega arith, omega arith)
acts luck owner m a = omega arith
acts luck unlock m a = ground arith
acts luck wake m a = (omega arith, refl)

waits :
    (luck : Bool) (l : Loc) (m : Mutex)
    → ActionWaits (WaitsForOffer avail power) (Retries avail power) (action luck l m)
unfolding action
waits luck wait m = (λ m'. (refl, λ h. ground arith), (refl, omega arith))
waits luck outside m = tt
waits luck try m = tt
waits luck lock m = tt
waits luck owner m = tt
waits luck unlock m = tt
waits luck wake m = tt

calls : (l l' : Loc) → Call l l' → power l ≤ power l'
calls l l' calls_try_lock = omega arith
calls l l' calls_lock = omega arith
calls l l' calls_unlock = omega arith

pub mutex-Wakeful : Wakeful avail power mutex
mutex-Wakeful = record { acts = acts; waits = waits; calls = calls }

-- In a reachable state where a task is suspended and the mutex is free, some task is awake in the
-- loop of `lock`, or has released the mutex and is about to wake a waiter, or is resuming one.
pub no_lost_wakeup :
    (tbb : Tbb) {n : ℕ} {w : tbb.World} {s : System tbb Mutex Loc}
    → ((t : ℕ) → tbb.is_suspended w t ≡ false)
    → Reach tbb mutex n (initial tbb mutex unlocked (λ _. outside) w) s
    → (i : ℕ) → tbb.is_suspended s.state.world i ≡ true
    → s.state.mem.locked ≡ false
    → (j : ℕ) × (j < n)
      × (0 < wakes (offer avail power) (s.pc j) (tbb.is_suspended s.state.world j))
no_lost_wakeup tbb {n} {w} quiet r i sus free =
    waker avail power tbb mutex n unlocked (λ _. outside) w mutex-Wakeful quiet r i sus
      (ground arith)
