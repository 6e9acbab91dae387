-- ===== src/ConditionVariable.antt =====
-- include/coopsync_tbb/condition_variable.hpp and src/condition_variable.cpp, as a program for the
-- machine. The lock is the caller's, and so are the data that its predicate reads.
pub mod LostWakeup
use coopsync_tbb.Base.{Bool, true, false, not, Option, none, some, if◌then◌else◌}
use coopsync_tbb.Machine.{Action, access, wait_if, resume_one, resume_all, primary, Program}

-- A type with `lock()` and `unlock()`.
pub record Lockable : Type 1 where
  pub LockState : Type 0
  -- `none` while `lock()` has to wait
  pub lock : LockState → Option LockState
  pub unlock : LockState → LockState

module _ (K : Lockable) (D : Type 0) where
  pub record Shared : Type 0 where
    pub lock_state : K.LockState
    pub guarded : D

-- The places between two atomic accesses. The Boolean of `release`, `sleep` and `relock` says whether
-- the overload with a predicate goes on; that of the notifications whether the task holds the lock.
pub data Loc (D : Type 0) : Type 0 where
  outside : Loc D
  take : Loc D  -- the caller's own `lock()`
  holding : Loc D
  change : D → Loc D  -- the caller's own access of its data
  drop : Loc D  -- the caller's own `unlock()`
  test : Loc D  -- the head of the loop of `wait(lock, pred)`
  release : Bool → Loc D  -- `wait(lock)`, before `lock.unlock()`
  sleep : Bool → Loc D  -- before its `wait_if`
  relock : Bool → Loc D  -- before `lock.lock()`
  notify_one : Bool → Loc D
  notify_all : Bool → Loc D

-- Where a notification returns to.
abbrev pub notified : {D : Type 0} → Bool → Loc D
notified true = holding
notified false = outside

-- Where `wait(lock)` returns to.
abbrev pub waited : {D : Type 0} → Bool → Loc D
waited true = test
waited false = holding

module _ (K : Lockable) {D : Type 0} (pred : D → Bool) where
  -- `lock.lock()`, one try.
  abbrev pub try_take : Shared K D → Loc D → Loc D → Action (Shared K D) (Loc D)
  try_take m again done = elim (K.lock m.lock_state) [
    | none ↦ access m again
    | some k ↦ access (record m { lock_state = k }) done
  ]

  unfoldable pub action : Bool → Loc D → Shared K D → Action (Shared K D) (Loc D)
  action luck outside m = access m outside
  action luck take m = try_take m take holding
  action luck holding m = access m holding
  action luck (change d) m = access (record m { guarded = d }) holding
  action luck drop m = access (record m { lock_state = K.unlock m.lock_state }) outside
  action luck test m = access m (if not (pred m.guarded) then release true else holding)
  action luck (release b) m = access (record m { lock_state = K.unlock m.lock_state }) (sleep b)
  action luck (sleep b) m = wait_if primary (λ m'. (true, m')) (relock b)
  action luck (relock b) m = try_take m (relock b) (waited b)
  action luck (notify_one h) m = resume_one primary (λ _. notified h)
  action luck (notify_all h) m = resume_all primary (notified h)

  pub data Call : Loc D → Loc D → Type 0 where
    takes : Call outside take
    changes : (d : D) → Call holding (change d)
    drops : Call holding drop
    calls_wait : Call holding (release false)
    calls_wait_pred : Call holding test
    calls_notify_one : (h : Bool) → Call (notified h) (notify_one h)
    calls_notify_all : (h : Bool) → Call (notified h) (notify_all h)

  abbrev pub condition_variable : Program (Shared K D) (Loc D)
  condition_variable = record { action = action; Call = Call; Allowed = λ l m. Unit {0} }
