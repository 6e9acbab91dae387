-- ===== src/Latch.antt =====
-- include/coopsync_tbb/latch.hpp and src/latch.cpp, as a program for the machine.
pub mod Release
use coopsync_tbb.Base.{ℕ, ◌-◌, ◌≤◌, Bool, true, false, not, if◌then◌else◌, ◌==◌}
use coopsync_tbb.Machine.{Action, access, wait_if, resume_all, primary, Program}

-- `m_counter`
pub record Latch : Type 0 where
  pub counter : ℕ

-- The places between two atomic accesses. The Boolean says whether `wait` follows, which is so in
-- `arrive_and_wait`.
pub data Loc : Type 0 where
  outside : Loc
  count_down : (update : ℕ) (waits : Bool) → Loc  -- before the `fetch_sub`
  wake : (waits : Bool) → Loc  -- after it, when it was the last
  wait : Loc  -- the fast path of `wait`
  slow : Loc  -- after it
  passed : Loc  -- `wait` is about to return

-- What follows `count_down`.
abbrev pub after_count_down : Bool → Loc
after_count_down waits = if waits then wait else outside

abbrev pub try_wait : Latch → Bool
try_wait m = m.counter == 0

unfoldable pub action : Bool → Loc → Latch → Action Latch Loc
action luck outside m = access m outside
action luck (count_down u b) m =
    access (record { counter = m.counter - u })
      (if m.counter == u then wake b else after_count_down b)
action luck (wake b) m = resume_all primary (after_count_down b)
action luck wait m = access m (if not (try_wait m) then slow else passed)
action luck slow m = wait_if primary (λ m'. (not (try_wait m'), m')) passed
action luck passed m = access m passed

pub data Call : Loc → Loc → Type 0 where
  calls_count_down : (update : ℕ) → Call outside (count_down update false)
  calls_arrive_and_wait : (update : ℕ) → Call outside (count_down update true)
  calls_wait : Call outside wait
  returns : Call passed outside

-- The assertion of `count_down`: the update is at most the counter.
abbrev pub Allowed : Loc → Latch → Type 0
Allowed (count_down u b) m = u ≤ m.counter
Allowed _ m = Unit {0}

abbrev pub latch : Program Latch Loc
latch = record { action = action; Call = Call; Allowed = Allowed }
