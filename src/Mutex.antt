-- ===== src/Mutex.antt =====
-- src/mutex.cpp: the lock of `mutex`, as a program for the machine.
pub mod Exclusion
pub mod Ownership
pub mod Progress
pub mod Deadlock
pub mod ScopedLock
use coopsync_tbb.Base.{Bool, true, false, ◌≡◌, if◌then◌else◌}
use coopsync_tbb.Machine.{Action, access, wait_if, resume_one, primary, Program}

-- `m_locked`; the wait queue belongs to the machine.
pub record Mutex : Type 0 where
  pub locked : Bool

-- The places between two atomic accesses.
pub data Loc : Type 0 where
  outside : Loc  -- the task holds no lock and runs code of its own
  try : Loc  -- in `try_lock`
  lock : Loc  -- at the head of the loop of `lock`
  wait : Loc  -- in the body of that loop
  owner : Loc  -- `lock` or `try_lock` has succeeded
  unlock : Loc  -- before the store of `unlock`
  wake : Loc  -- after it

-- `m_locked.compare_exchange_strong(false, true)`
abbrev pub try_lock : Mutex → Bool × Mutex
try_lock m = if m.locked then (false, m) else (true, record { locked = true })

unfoldable pub action : Bool → Loc → Mutex → Action Mutex Loc
action luck outside m = access m outside
action luck try m = access (try_lock m).1 (if (try_lock m).0 then owner else outside)
action luck lock m = access (try_lock m).1 (if (try_lock m).0 then owner else wait)
action luck wait m = wait_if primary (λ m'. (m'.locked, m')) lock
action luck owner m = access m owner
action luck unlock m = access (record { locked = false }) wake
action luck wake m = resume_one primary (λ _. outside)

pub data Call : Loc → Loc → Type 0 where
  calls_try_lock : Call outside try
  calls_lock : Call outside lock
  calls_unlock : Call owner unlock

-- The assertion of `unlock`.
abbrev pub Allowed : Loc → Mutex → Type 0
Allowed unlock m = m.locked ≡ true
Allowed _ m = Unit {0}

abbrev pub mutex : Program Mutex Loc
mutex = record { action = action; Call = Call; Allowed = Allowed }

abbrev pub unlocked : Mutex
unlocked = record { locked = false }
