-- ===== src/Mutex/Ownership.antt =====
-- src/mutex.cpp as an abstract lock that is exclusive.
use coopsync_tbb.Base.{ℕ, ◌<◌, ◌≡◌, ◌≢◌, refl, Bool, true, arith}
use coopsync_tbb.Tbb.{Tbb}
use coopsync_tbb.Machine.{Pc, at, recheck, parked, resuming, place, System, initial, Step, Reach}
use coopsync_tbb.Machine.Ownership.{
  Mode, free, exclusive, compatible, turns, Turns, Owned, mode_of, owners, LockReach,
  Reach-LockReach, Step-LockStep, AtMostOne,
}
use coopsync_tbb.Mutex.{
  Mutex, Loc, outside, try, lock, wait, owner, unlock, wake, action, Call, calls_try_lock,
  calls_lock, calls_unlock, mutex, unlocked,
}
use coopsync_tbb.Mutex.Exclusion.{mutual_exclusion, owns}

-- A task has the mutex until the store of `unlock`.
abbrev pub mode : Loc → Mode
mode owner = exclusive
mode unlock = exclusive
mode _ = free

acts : (luck : Bool) (l : Loc) (m : Mutex) → Turns mode l (action luck l m)
unfolding action
acts luck outside m = refl
acts luck try m = refl
acts luck lock m = refl
acts luck wait m = (refl, refl)
acts luck owner m = refl
acts luck unlock m = refl
acts luck wake m = (refl, refl)

calls : (l l' : Loc) → Call l l' → turns (mode l) (mode l') ≡ true
calls l l' calls_try_lock = refl
calls l l' calls_lock = refl
calls l l' calls_unlock = refl

mutex-Owned : Owned mode mutex
mutex-Owned = record { acts = acts; calls = calls }

-- Two modes go together, if one of them is free.
go_together :
    (p p' : Pc Mutex Loc)
    → (owns (place p) ≡ true → owns (place p') ≡ true → ⊥)
    → compatible (mode_of mode p) (mode_of mode p') ≡ true
go_together (at l) (at l') h = ground (arith, h)
go_together (at l) (recheck q pred l') h = ground arith
go_together (at l) (parked q l') h = ground arith
go_together (at l) (resuming q ts l') h = ground arith
go_together (recheck q pred l) p' h = refl
go_together (parked q l) p' h = refl
go_together (resuming q ts l) p' h = refl

modes_compatible :
    (tbb : Tbb) {n : ℕ} {w : tbb.World} (t : System tbb Mutex Loc)
    → Reach tbb mutex n (initial tbb mutex unlocked (λ _. outside) w) t
    → (i j : ℕ) → i < n
    → j < n
    → i ≢ j
    → compatible (owners mode tbb mutex t i) (owners mode tbb mutex t j) ≡ true
modes_compatible tbb t r i j lti ltj ne =
    go_together (t.pc i) (t.pc j) (λ h k. ne (mutual_exclusion tbb r i j lti ltj h k))

-- In every step from a state that is reachable from the unlocked mutex, what the tasks own stays as it
-- is, or changes by one step of a lock: a task takes it while no other one has it, or gives it
-- back.
pub mutex-LockStep :
    (tbb : Tbb) {n : ℕ} {w : tbb.World} {s t : System tbb Mutex Loc}
    → Reach tbb mutex n (initial tbb mutex unlocked (λ _. outside) w) s
    → Step tbb mutex n s t
    → AtMostOne n (owners mode tbb mutex s) (owners mode tbb mutex t)
mutex-LockStep tbb r st = Step-LockStep mode tbb mutex mutex-Owned (modes_compatible tbb) r st

-- So from the unlocked mutex on, what the tasks own is what a run of the lock gives them.
pub mutex-LockReach :
    (tbb : Tbb) {n : ℕ} {w : tbb.World} {s : System tbb Mutex Loc}
    → Reach tbb mutex n (initial tbb mutex unlocked (λ _. outside) w) s
    → LockReach n (λ _. free) (owners mode tbb mutex s)
mutex-LockReach tbb r = Reach-LockReach mode tbb mutex mutex-Owned (modes_compatible tbb) r
