-- ===== src/Semaphore/Counting.antt =====
-- `counting_semaphore`, as a program for the machine. Each task keeps the number of permits that it
-- has acquired and not given back.
pub mod Permits
pub mod Progress
pub mod Deadlock
use coopsync_tbb.Base.{
  ℕ, ◌+◌, ◌-◌, ◌*◌, ◌%◌, ◌≤◌, ◌≡◌, Bool, ◌&&◌, not, if◌then◌else◌, ◌==◌, ltb, leb,
}
use coopsync_tbb.Machine.{Action, access, wait_if, resume_n, primary, Program}

-- `m_counter`, a bit pattern: a value above the limit of the type stands for a negative one.
pub record Semaphore : Type 0 where
  pub counter : ℕ

-- The places between two atomic accesses, with the permits of the task and the local variables.
pub data Loc : Type 0 where
  outside : (permits : ℕ) → Loc
  try : (permits : ℕ) → Loc  -- the load of `try_acquire`
  try_loop : (permits current : ℕ) → Loc  -- the head of its loop
  acquire : (permits : ℕ) → Loc  -- the same two places in the `try_acquire` of `acquire`
  acquire_loop : (permits current : ℕ) → Loc
  wait : (permits : ℕ) → Loc  -- the body of the loop of `acquire`
  release : (kept update : ℕ) → Loc  -- `release`, up to its `fetch_add`
  wake : (kept update : ℕ) → Loc  -- after it

module _ (limit : ℕ) where
  -- `current > 0`
  abbrev pub positive : ℕ → Bool
  positive current = ltb 0 current && leb current limit

  -- One round of the loop of `try_acquire`: where it goes on success, in the next round, and when
  -- the loop ends.
  abbrev pub try_round : Bool → Semaphore → ℕ → Loc → (ℕ → Loc) → Loc → Action Semaphore Loc
  try_round luck m current success again failure =
      if positive current
      then (if not luck && (m.counter == current)
          then access (record { counter = current - 1 }) success
          else access m (again m.counter))
      else access m failure

  unfoldable pub action : Bool → Loc → Semaphore → Action Semaphore Loc
  action luck (outside k) m = access m (outside k)
  action luck (try k) m = access m (try_loop k m.counter)
  action luck (try_loop k current) m =
      try_round luck m current (outside (k + 1)) (try_loop k) (outside k)
  action luck (acquire k) m = access m (acquire_loop k m.counter)
  action luck (acquire_loop k current) m =
      try_round luck m current (outside (k + 1)) (acquire_loop k) (wait k)
  action luck (wait k) m = wait_if primary (λ m'. (m'.counter == 0, m')) (acquire k)
  action luck (release k u) m =
      if u == 0
      then access m (outside k)
      else access (record { counter = (m.counter + u) % (2 * (limit + 1)) }) (wake k u)
  action luck (wake k u) m = resume_n primary u (outside k)

  -- A task gives back permits that it has.
  pub data Call : Loc → Loc → Type 0 where
    calls_try_acquire : (k : ℕ) → Call (outside k) (try k)
    calls_acquire : (k : ℕ) → Call (outside k) (acquire k)
    calls_release : (k kept update : ℕ) → k ≡ kept + update → Call (outside k) (release kept update)

  -- The assertion of `release`: `update <= max() - prev`.
  abbrev pub Allowed : Loc → Semaphore → Type 0
  Allowed (release k u) m = m.counter + u ≤ limit
  Allowed _ m = Unit {0}

  abbrev pub semaphore : Program Semaphore Loc
  semaphore = record { action = action; Call = Call; Allowed = Allowed }
