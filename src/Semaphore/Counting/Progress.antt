-- ===== src/Semaphore/Counting/Progress.antt =====
-- The wake-ups of `counting_semaphore` in include/coopsync_tbb/semaphore.hpp.
use native.Mathlib.Nat.{mod-eq_of_lt}
use coopsync_tbb.Base.{ℕ, ◌+◌, ◌%◌, ◌*◌, ◌<◌, ◌≤◌, ◌≡◌, refl, Bool, true, false, arith}
use coopsync_tbb.Tbb.{Tbb}
use coopsync_tbb.Machine.{System, initial, Reach}
use coopsync_tbb.Machine.Wakes.{wakes}
use coopsync_tbb.Machine.Waits.{ActionWaits}
use coopsync_tbb.Machine.Waking.{Wakeful, offer, Offers, WaitsForOffer, Retries, waker}
use coopsync_tbb.Semaphore.Counting.{
  Semaphore, Loc, outside, try, try_loop, acquire, acquire_loop, wait, release, wake, action, Call,
  calls_try_acquire, calls_acquire, calls_release, Allowed, semaphore,
}
use coopsync_tbb.Semaphore.Counting.Permits.{stock}

-- In the loop of `acquire`, or about to wake as many waiters as permits were released.
abbrev pub power : Loc → ℕ
power (acquire k) = 1
power (acquire_loop k current) = 1
power (wait k) = 1
power (wake k u) = u
power _ = 0

module _ (limit : ℕ) where
  acts :
      (luck : Bool) (l : Loc) (m : Semaphore)
      → Allowed limit l m
      → Offers stock power l m (action limit luck l m)
  unfolding action
  acts luck (outside k) m a = omega arith
  acts luck (try k) m a = omega arith
  acts luck (try_loop k c) m a = ground arith
  acts luck (acquire k) m a = omega arith
  acts luck (acquire_loop k c) m a = ground arith
  acts luck (wait k) m a = (omega arith, omega arith)
  acts luck (release k u) m a =
      let small : (m.counter + u) % (2 * (limit + 1)) ≡ m.counter + u =
        mod-eq_of_lt (omega arith) in
      ground arith
  acts luck (wake k u) m a = (omega arith, refl)

  waits :
      (luck : Bool) (l : Loc) (m : Semaphore)
      → ActionWaits (WaitsForOffer stock power) (Retries stock power) (action limit luck l m)
  unfolding action
  waits luck (outside k) m = tt
  waits luck (try k) m = tt
  waits luck (try_loop k c) m = ground arith
  waits luck (acquire k) m = tt
  waits luck (acquire_loop k c) m = ground arith
  waits luck (wait k) m = (λ m'. (refl, λ h. ground arith), (refl, omega arith))
  waits luck (release k u) m = ground arith
  waits luck (wake k u) m = tt

  calls : (l l' : Loc) → Call limit l l' → power l ≤ power l'
  calls l l' (calls_try_acquire k) = omega arith
  calls l l' (calls_acquire k) = omega arith
  calls l l' (calls_release k kept u e) = omega arith

  pub semaphore-Wakeful : Wakeful stock power (semaphore limit)
  semaphore-Wakeful = record { acts = acts; waits = waits; calls = calls }

-- In a reachable state where a task is suspended and the counter is not zero, some task is awake in
-- the loop of `acquire`, or has released permits and is about to wake waiters, or is resuming one.
pub counting_no_lost_wakeup :
    (tbb : Tbb) (limit desired : ℕ) {n : ℕ} {start : ℕ → ℕ} {w : tbb.World}
    {s : System tbb Semaphore Loc}
    → ((t : ℕ) → tbb.is_suspended w t ≡ false)
    → Reach tbb
        (semaphore limit)
        n
        (initial tbb (semaphore limit) (record { counter = desired }) (λ j. outside (start j)) w)
        s
    → (i : ℕ) → tbb.is_suspended s.state.world i ≡ true
    → 0 < s.state.mem.counter
    → (j : ℕ) × (j < n)
      × (0 < wakes (offer stock power) (s.pc j) (tbb.is_suspended s.state.world j))
counting_no_lost_wakeup tbb limit desired {n} {start} {w} quiet r i sus free =
    waker stock power tbb (semaphore limit) n (record { counter = desired })
      (λ j. outside (start j)) w (semaphore-Wakeful limit) quiet r i sus free
