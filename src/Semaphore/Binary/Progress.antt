-- ===== src/Semaphore/Binary/Progress.antt =====
-- The wake-ups of `counting_semaphore<1>` in src/semaphore.cpp.
use coopsync_tbb.Base.{ℕ, ◌<◌, ◌≤◌, ◌≡◌, refl, Bool, true, false, arith}
use coopsync_tbb.Tbb.{Tbb}
use coopsync_tbb.Machine.{System, initial, Reach}
use coopsync_tbb.Machine.Wakes.{wakes}
use coopsync_tbb.Machine.Waits.{ActionWaits}
use coopsync_tbb.Machine.Waking.{Wakeful, offer, Offers, WaitsForOffer, Retries, waker}
use coopsync_tbb.Semaphore.Binary.{
  Semaphore, Loc, outside, try, acquire, wait, release, wake, action, Call, calls_try_acquire,
  calls_acquire, calls_release, Allowed, semaphore,
}
use coopsync_tbb.Semaphore.Binary.Permits.{stock}

-- In the loop of `acquire`, or about to wake a waiter.
abbrev pub power : Loc → ℕ
power (acquire k) = 1
power (wait k) = 1
power (wake k) = 1
power _ = 0

acts :
    (luck : Bool) (l : Loc) (m : Semaphore) → Allowed l m → Offers stock power l m (action luck l m)
unfolding action
acts luck (outside k) m a = omega arith
acts luck (try k) m a = ground arith
acts luck (acquire k) m a = ground arith
acts luck (wait k) m a = (omega arith, omega arith)
acts luck (release k u) m a = ground arith
acts luck (wake k) m a = (omega arith, refl)

waits :
    (luck : Bool) (l : Loc) (m : Semaphore)
    → ActionWaits (WaitsForOffer stock power) (Retries stock power) (action luck l m)
unfolding action
waits luck (outside k) m = tt
waits luck (try k) m = tt
waits luck (acquire k) m = tt
waits luck (wait k) m = (λ m'. (refl, λ h. ground arith), (refl, omega arith))
waits luck (release k u) m = ground arith
waits luck (wake k) m = tt

calls : (l l' : Loc) → Call l l' → power l ≤ power l'
calls l l' (calls_try_acquire k) = omega arith
calls l l' (calls_acquire k) = omega arith
calls l l' (calls_release k kept u e) = omega arith

pub semaphore-Wakeful : Wakeful stock power semaphore
semaphore-Wakeful = record { acts = acts; waits = waits; calls = calls }

-- In a reachable state where a task is suspended and the permit is available, some task is awake in
-- the loop of `acquire`, or has released the permit and is about to wake a waiter, or is resuming one.
pub binary_no_lost_wakeup :
    (tbb : Tbb) (desired : Bool) {n : ℕ} {start : ℕ → ℕ} {w : tbb.World}
    {s : System tbb Semaphore Loc}
    → ((t : ℕ) → tbb.is_suspended w t ≡ false)
    → Reach tbb semaphore n
        (initial tbb semaphore (record { available = desired }) (λ j. outside (start j)) w)
        s
    → (i : ℕ) → tbb.is_suspended s.state.world i ≡ true
    → s.state.mem.available ≡ true
    → (j : ℕ) × (j < n)
      × (0 < wakes (offer stock power) (s.pc j) (tbb.is_suspended s.state.world j))
binary_no_lost_wakeup tbb desired {n} {start} {w} quiet r i sus free =
    waker stock power tbb semaphore n (record { available = desired }) (λ j. outside (start j)) w
      semaphore-Wakeful quiet r i sus (ground arith)
