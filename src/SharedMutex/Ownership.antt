-- ===== src/SharedMutex/Ownership.antt =====
-- src/shared_mutex.cpp as an abstract lock that is shared or exclusive.
use coopsync_tbb.Base.{ℕ, ◌<◌, ◌≡◌, ◌≢◌, refl, sym, Bool, true, false, arith}
use coopsync_tbb.Tbb.{Tbb}
use coopsync_tbb.Machine.{Pc, at, recheck, parked, resuming, System, initial, Step, Reach}
use coopsync_tbb.Machine.Ownership.{
  Mode, free, shared, exclusive, compatible, turns, Turns, Owned, mode_of, owners, LockReach,
  Reach-LockReach, Step-LockStep, AtMostOne,
}
use coopsync_tbb.SharedMutex.{
  SharedMutex, Loc, outside, try, lock, wait, writer, unlock, try_shared, try_shared_loop,
  lock_shared, lock_shared_loop, wait_shared, reader, unlock_shared, unlock_shared_loop, transition,
  hand_over, clear, wake_readers, action, Call, calls_try_lock, calls_lock, calls_unlock,
  calls_try_lock_shared, calls_lock_shared, calls_unlock_shared, shared_mutex, unlocked,
}
use coopsync_tbb.SharedMutex.Exclusion.{writer_excludes, is_writing, is_reading}

-- What a task has at a location: a writer until it calls `resume_one` in `unlock`, a reader until
-- `unlock_shared` has changed `m_state`.
abbrev pub mode : Loc → Mode
mode writer = exclusive
mode unlock = exclusive
mode reader = shared
mode unlock_shared = shared
mode (unlock_shared_loop _) = shared
mode _ = free

acts : (luck : Bool) (l : Loc) (m : SharedMutex) → Turns mode l (action luck l m)
unfolding action
acts luck outside m = refl
acts luck try m = refl
acts luck lock m = refl
acts luck wait m = (refl, refl)
acts luck writer m = refl
acts luck unlock m = (refl, refl)
acts luck try_shared m = refl
acts luck (try_shared_loop z) m = ground arith
acts luck lock_shared m = refl
acts luck (lock_shared_loop z) m = ground arith
acts luck wait_shared m = (refl, refl)
acts luck reader m = refl
acts luck unlock_shared m = refl
acts luck (unlock_shared_loop z) m = ground arith
acts luck transition m = refl
acts luck hand_over m = (refl, refl)
acts luck clear m = refl
acts luck wake_readers m = refl

calls : (l l' : Loc) → Call l l' → turns (mode l) (mode l') ≡ true
calls l l' calls_try_lock = refl
calls l l' calls_lock = refl
calls l l' calls_unlock = refl
calls l l' calls_try_lock_shared = refl
calls l l' calls_lock_shared = refl
calls l l' calls_unlock_shared = refl

shared_mutex-Owned : Owned mode shared_mutex
shared_mutex-Owned = record { acts = acts; calls = calls }

writes_exclusive : (p : Pc SharedMutex Loc) → mode_of mode p ≡ exclusive → is_writing p ≡ true
writes_exclusive (at l) h = ground arith
writes_exclusive (recheck q pred l) h = absurd (cc)
writes_exclusive (parked q l) h = absurd (cc)
writes_exclusive (resuming q ts l) h = absurd (cc)

-- What a task has, by what it does.
by_deeds :
    (p : Pc SharedMutex Loc) → is_writing p ≡ false → is_reading p ≡ false → mode_of mode p ≡ free
by_deeds (at l) h k = ground arith
by_deeds (recheck q pred l) h k = refl
by_deeds (parked q l) h k = refl
by_deeds (resuming q ts l) h k = refl

-- Two modes go together, if a task that is exclusive leaves the other one free.
go_together :
    (a b : Mode) → (a ≡ exclusive → b ≡ free) → (b ≡ exclusive → a ≡ free) → compatible a b ≡ true
go_together free b h k = refl
go_together shared free h k = refl
go_together shared shared h k = refl
go_together shared exclusive h k = ground (arith, k refl)
go_together exclusive free h k = refl
go_together exclusive shared h k = ground (arith, h refl)
go_together exclusive exclusive h k = ground (arith, h refl)

-- Two tasks of a reachable state have modes that go together.
modes_compatible :
    (tbb : Tbb) {n : ℕ} {w : tbb.World}
    → ((t : ℕ) → tbb.is_suspended w t ≡ false)
    → (t : System tbb SharedMutex Loc)
    → Reach tbb shared_mutex n (initial tbb shared_mutex unlocked (λ _. outside) w) t
    → (i j : ℕ) → i < n
    → j < n
    → i ≢ j
    → compatible (owners mode tbb shared_mutex t i) (owners mode tbb shared_mutex t j) ≡ true
modes_compatible tbb quiet t r i j lti ltj ne =
    go_together _ _
      (λ e.
        let other = writer_excludes tbb quiet r i j lti ltj ne (writes_exclusive (t.pc i) e) in
        by_deeds (t.pc j) other.0 other.1)
      (λ e.
        let other =
          writer_excludes tbb quiet r j i ltj lti (λ h. ne (sym h)) (writes_exclusive (t.pc j) e) in
        by_deeds (t.pc i) other.0 other.1)

-- In every step from a state that is reachable from the unlocked `shared_mutex`, what the tasks own
-- stays as it is, or changes by one step of a lock: a task that owns nothing becomes the writer
-- while no other one owns anything, or a reader while no other one writes, or a task gives back
-- what it has.
pub shared_mutex-LockStep :
    (tbb : Tbb) {n : ℕ} {w : tbb.World} {s t : System tbb SharedMutex Loc}
    → ((j : ℕ) → tbb.is_suspended w j ≡ false)
    → Reach tbb shared_mutex n (initial tbb shared_mutex unlocked (λ _. outside) w) s
    → Step tbb shared_mutex n s t
    → AtMostOne n (owners mode tbb shared_mutex s) (owners mode tbb shared_mutex t)
shared_mutex-LockStep tbb quiet r st =
    Step-LockStep mode tbb shared_mutex shared_mutex-Owned (modes_compatible tbb quiet) r st

-- So from the unlocked `shared_mutex` on, what the tasks own is what a run of the lock gives them.
pub shared_mutex-LockReach :
    (tbb : Tbb) {n : ℕ} {w : tbb.World} {s : System tbb SharedMutex Loc}
    → ((t : ℕ) → tbb.is_suspended w t ≡ false)
    → Reach tbb shared_mutex n (initial tbb shared_mutex unlocked (λ _. outside) w) s
    → LockReach n (λ _. free) (owners mode tbb shared_mutex s)
shared_mutex-LockReach tbb quiet r =
    Reach-LockReach mode tbb shared_mutex shared_mutex-Owned (modes_compatible tbb quiet) r
