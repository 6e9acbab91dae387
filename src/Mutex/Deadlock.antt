-- ===== src/Mutex/Deadlock.antt =====
-- The absence of deadlocks in src/mutex.cpp.
use coopsync_tbb.Base.{ℕ, ◌<◌, ◌≡◌, ◌⊎◌, inl, inr, refl, Bool, true, false, arith}
use coopsync_tbb.Tbb.{Tbb}
use coopsync_tbb.Machine.{System, initial, Reach}
use coopsync_tbb.Machine.Waits.{ActionWaits}
use coopsync_tbb.Machine.Waking.{WaitsForOffer}
use coopsync_tbb.Machine.Deadlock.{Runs, Presses, ResumesSome, InLoop, Eager}
use coopsync_tbb.Machine.Deadlock.Takes.{takes}
use coopsync_tbb.Mutex.{
  Mutex, Loc, outside, try, lock, wait, owner, unlock, wake, action, mutex, unlocked,
}
use coopsync_tbb.Mutex.Progress.{avail, power, mutex-Wakeful}

abbrev in_lock : Loc → Bool
in_lock lock = true
in_lock wait = true
in_lock _ = false

abbrev distance : Loc → Mutex → ℕ
distance wait m = 1
distance _ m = 0

abbrev Free : Mutex → Type 0
Free m = m.locked ≡ false

presses :
    (l : Loc) (m : Mutex)
    → in_lock l ≡ true
    → Free m
    → mutex.Allowed l m × Presses avail in_lock distance l m (action true l m)
unfolding action
presses lock m loop free = (tt, ground arith)
presses wait m loop free = (tt, ground arith)
presses outside m loop free = absurd (ground arith)
presses try m loop free = absurd (ground arith)
presses owner m loop free = absurd (ground arith)
presses unlock m loop free = absurd (ground arith)
presses wake m loop free = absurd (ground arith)

resumes :
    (l : Loc) (m : Mutex)
    → 0 < power l
    → (in_lock l ≡ true) ⊎ (mutex.Allowed l m × ResumesSome (action true l m))
unfolding action
resumes lock m strong = inl refl
resumes wait m strong = inl refl
resumes wake m strong = inr (tt, refl)
resumes outside m strong = absurd (omega arith)
resumes try m strong = absurd (omega arith)
resumes owner m strong = absurd (omega arith)
resumes unlock m strong = absurd (omega arith)

waits :
    (luck : Bool) (l : Loc) (m : Mutex)
    → ActionWaits (WaitsForOffer avail power) (InLoop in_lock) (action luck l m)
unfolding action
waits luck wait m = (λ m'. (refl, λ h. ground arith), (refl, refl))
waits luck outside m = tt
waits luck try m = tt
waits luck lock m = tt
waits luck owner m = tt
waits luck unlock m = tt
waits luck wake m = tt

mutex-Eager : Eager avail power in_lock distance Free true mutex
mutex-Eager = record {
  offers = λ m free. ground arith;
  presses = presses;
  resumes = resumes;
  waits = waits;
}

-- In a reachable state where a task is suspended and the mutex is free, the tasks can run on, without
-- any further call, to a state where the mutex is locked: there is no deadlock.
pub mutex_deadlock_free :
    (tbb : Tbb) {n : ℕ} {w : tbb.World} {s : System tbb Mutex Loc}
    → ((t : ℕ) → tbb.is_suspended w t ≡ false)
    → Reach tbb mutex n (initial tbb mutex unlocked (λ _. outside) w) s
    → (i : ℕ) → tbb.is_suspended s.state.world i ≡ true
    → s.state.mem.locked ≡ false
    → (t : System tbb Mutex Loc) × Runs tbb mutex n t s × (t.state.mem.locked ≡ true)
mutex_deadlock_free tbb {n} {w} quiet r i sus free =
    let (t, runs, less) =
      takes avail power in_lock distance Free true tbb mutex n mutex-Eager unlocked (λ _. outside) w
        mutex-Wakeful quiet r i sus free in
    (t, runs, ground arith)
