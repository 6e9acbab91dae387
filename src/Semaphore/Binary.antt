-- ===== src/Semaphore/Binary.antt =====
-- `counting_semaphore<1>`, which keeps a flag in place of a counter.
pub mod Permits
pub mod Progress
pub mod Deadlock
use coopsync_tbb.Base.{ℕ, ◌+◌, ◌≤◌, ◌≡◌, ◌⊎◌, Bool, true, false, not, if◌then◌else◌, ◌==◌}
use coopsync_tbb.Machine.{Action, access, wait_if, resume_one, primary, Program}

-- `m_available`
pub record Semaphore : Type 0 where
  pub available : Bool

-- The places between two atomic accesses, with the permits of the task.
pub data Loc : Type 0 where
  outside : (permits : ℕ) → Loc
  try : (permits : ℕ) → Loc  -- in `try_acquire`
  acquire : (permits : ℕ) → Loc  -- at the head of the loop of `acquire`
  wait : (permits : ℕ) → Loc  -- in the body of that loop
  release : (kept update : ℕ) → Loc  -- `release`, up to its store
  wake : (kept : ℕ) → Loc  -- after it

-- `m_available.compare_exchange_strong(true, false)`
abbrev pub try_acquire : Semaphore → Bool × Semaphore
try_acquire m = if m.available then (true, record { available = false }) else (false, m)

unfoldable pub action : Bool → Loc → Semaphore → Action Semaphore Loc
action luck (outside k) m = access m (outside k)
action luck (try k) m =
    access (try_acquire m).1 (if (try_acquire m).0 then outside (k + 1) else outside k)
action luck (acquire k) m =
    access (try_acquire m).1 (if (try_acquire m).0 then outside (k + 1) else wait k)
action luck (wait k) m = wait_if primary (λ m'. (not m'.available, m')) (acquire k)
action luck (release k u) m =
    if u == 0 then access m (outside k) else access (record { available = true }) (wake k)
action luck (wake k) m = resume_one primary (λ _. outside k)

-- A task gives back permits that it has.
pub data Call : Loc → Loc → Type 0 where
  calls_try_acquire : (k : ℕ) → Call (outside k) (try k)
  calls_acquire : (k : ℕ) → Call (outside k) (acquire k)
  calls_release : (k kept update : ℕ) → k ≡ kept + update → Call (outside k) (release kept update)

-- `release` returns at most `max()` permits, and asserts that none is available.
abbrev pub Allowed : Loc → Semaphore → Type 0
Allowed (release k u) m = (u ≤ 1) × ((u ≡ 0) ⊎ (m.available ≡ false))
Allowed _ m = Unit {0}

abbrev pub semaphore : Program Semaphore Loc
semaphore = record { action = action; Call = Call; Allowed = Allowed }
