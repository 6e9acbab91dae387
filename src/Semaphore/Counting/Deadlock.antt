-- ===== src/Semaphore/Counting/Deadlock.antt =====
-- The absence of deadlocks in `counting_semaphore` of include/coopsync_tbb/semaphore.hpp.
use coopsync_tbb.Base.{
  ℕ, ◌+◌, ◌≤◌, ◌<◌, ◌≡◌, ◌⊎◌, inl, inr, refl, Bool, true, false, arith, if◌then◌else◌, ◌==◌, total,
}
use coopsync_tbb.Tbb.{Tbb}
use coopsync_tbb.Machine.{System, initial, Reach}
use coopsync_tbb.Machine.Waits.{ActionWaits}
use coopsync_tbb.Machine.Waking.{WaitsForOffer}
use coopsync_tbb.Machine.Deadlock.{Runs, Presses, ResumesSome, InLoop, Eager}
use coopsync_tbb.Machine.Deadlock.Takes.{takes}
use coopsync_tbb.Semaphore.Counting.{
  Semaphore, Loc, outside, try, try_loop, acquire, acquire_loop, wait, release, wake, positive,
  action, semaphore,
}
use coopsync_tbb.Semaphore.Counting.Permits.{stock, permits_conserved}
use coopsync_tbb.Semaphore.Counting.Progress.{power, semaphore-Wakeful}

abbrev in_acquire : Loc → Bool
in_acquire (acquire k) = true
in_acquire (acquire_loop k current) = true
in_acquire (wait k) = true
in_acquire _ = false

module _ (limit : ℕ) where
  -- The exchange succeeds with the current value, and with another one the loop starts again.
  abbrev distance : Loc → Semaphore → ℕ
  distance (acquire_loop k current) m =
      if current == m.counter then 0 else (if positive limit current then 1 else 4)
  distance (acquire k) m = 2
  distance (wait k) m = 3
  distance _ m = 0

  abbrev InStock : Semaphore → Type 0
  InStock m = (0 < m.counter) × (m.counter ≤ limit)

  presses :
      (l : Loc) (m : Semaphore)
      → in_acquire l ≡ true
      → InStock m
      → (semaphore limit).Allowed l m
        × Presses stock in_acquire distance l m (action limit false l m)
  unfolding action
  presses (acquire k) m loop (some, fits) = (tt, ground arith)
  presses (acquire_loop k c) m loop (some, fits) = (tt, ground arith)
  presses (wait k) m loop (some, fits) = (tt, ground arith)
  presses (outside k) m loop free = absurd (ground arith)
  presses (try k) m loop free = absurd (ground arith)
  presses (try_loop k c) m loop free = absurd (ground arith)
  presses (release k u) m loop free = absurd (ground arith)
  presses (wake k u) m loop free = absurd (ground arith)

  resumes :
      (l : Loc) (m : Semaphore)
      → 0 < power l
      → (in_acquire l ≡ true)
        ⊎ ((semaphore limit).Allowed l m × ResumesSome (action limit false l m))
  unfolding action
  resumes (acquire k) m strong = inl refl
  resumes (acquire_loop k c) m strong = inl refl
  resumes (wait k) m strong = inl refl
  resumes (wake k u) m strong = inr (tt, (refl, strong))
  resumes (outside k) m strong = absurd (omega arith)
  resumes (try k) m strong = absurd (omega arith)
  resumes (try_loop k c) m strong = absurd (omega arith)
  resumes (release k u) m strong = absurd (omega arith)

  waits :
      (luck : Bool) (l : Loc) (m : Semaphore)
      → ActionWaits (WaitsForOffer stock power) (InLoop in_acquire) (action limit luck l m)
  unfolding action
  waits luck (wait k) m = (λ m'. (refl, λ h. ground arith), (refl, refl))
  waits luck (outside k) m = tt
  waits luck (try k) m = tt
  waits luck (try_loop k c) m = ground arith
  waits luck (acquire k) m = tt
  waits luck (acquire_loop k c) m = ground arith
  waits luck (release k u) m = ground arith
  waits luck (wake k u) m = tt

  semaphore-Eager : Eager stock power in_acquire distance InStock false (semaphore limit)
  semaphore-Eager = record {
    offers = λ m ready. ready.0;
    presses = presses;
    resumes = resumes;
    waits = waits;
  }

-- In a reachable state of a semaphore for whose permits `max()` is large enough, where a task is
-- suspended and the counter is not zero, the tasks can run on, without any further call, to a state
-- with a lower counter: some task obtains a permit.
pub counting_deadlock_free :
    (tbb : Tbb) (limit desired : ℕ) {n : ℕ} {start : ℕ → ℕ} {w : tbb.World}
    {s : System tbb Semaphore Loc}
    → desired + total n start ≤ limit
    → ((t : ℕ) → tbb.is_suspended w t ≡ false)
    → Reach tbb
        (semaphore limit)
        n
        (initial tbb (semaphore limit) (record { counter = desired }) (λ j. outside (start j)) w)
        s
    → (i : ℕ) → tbb.is_suspended s.state.world i ≡ true
    → 0 < s.state.mem.counter
    → (t : System tbb Semaphore Loc) × Runs tbb (semaphore limit) n t s
      × (t.state.mem.counter < s.state.mem.counter)
counting_deadlock_free tbb limit desired {n} {start} {w} few quiet r i sus some =
    takes stock power in_acquire (distance limit) (InStock limit) false tbb (semaphore limit) n
      (semaphore-Eager limit) (record { counter = desired }) (λ j. outside (start j)) w
      (semaphore-Wakeful limit) quiet r i sus
      (some, omega (arith, permits_conserved tbb limit desired r))
