-- ===== src/Barrier.antt =====
-- include/coopsync_tbb/barrier.hpp, as a program for the machine. The completion function and the
-- data that it changes are the caller's.
pub mod Wake
pub mod Phase
pub mod Completion
pub mod ZeroArrival
use coopsync_tbb.Base.{ℕ, ◌+◌, ◌-◌, ◌%◌, ◌≤◌, ◌<◌, Bool, true, false, if◌then◌else◌, ◌==◌}
use coopsync_tbb.Machine.{Action, access, wait_if, resume_all, primary, Program}

-- `m_initial_expected`, `m_expected`, `m_phase`, and the caller's data.
pub record Barrier (D : Type 0) : Type 0 where
  pub initial_expected : ℕ
  pub expected : ℕ
  pub phase : ℕ
  pub shared : D

-- The places between two atomic accesses. The Boolean says whether `wait` follows, which is so in
-- `arrive_and_wait`.
pub data Loc : Type 0 where
  outside : Loc
  arrive : (update : ℕ) (waits : Bool) → Loc  -- the load of the phase
  subtract : (update phase : ℕ) (waits : Bool) → Loc  -- the `fetch_sub`
  complete : (phase : ℕ) (waits : Bool) → Loc  -- the last arrival: `m_completion()`
  reload : (phase : ℕ) (waits : Bool) → Loc  -- the load of `m_initial_expected`
  restore : (next_expected phase : ℕ) (waits : Bool) → Loc  -- the store of `m_expected`
  advance : (phase : ℕ) (waits : Bool) → Loc  -- the store of `m_phase`
  wake : (phase : ℕ) (waits : Bool) → Loc  -- the `resume_all`
  token : (phase : ℕ) → Loc  -- `arrive` has returned a token
  wait : (phase : ℕ) → Loc  -- the fast path of `wait`
  sleep : (phase : ℕ) → Loc  -- after it
  passed : (phase : ℕ) → Loc  -- `wait` is about to return
  drop : Loc  -- the `fetch_sub` of `arrive_and_drop`

-- What follows `arrive`.
abbrev pub arrived : ℕ → Bool → Loc
arrived p waits = if waits then wait p else token p

-- The next phase; a phase is an `unsigned char`.
abbrev pub next_phase : ℕ → ℕ
next_phase p = (p + 1) % 256

-- The test of the fast path, `arrival.m_phase == current_phase - 1`, which is computed in `int`.
abbrev pub is_previous : ℕ → ℕ → Bool
is_previous p current = p + 1 == current

module _ {D : Type 0} (completion : D → D) where
  unfoldable pub action : Bool → Loc → Barrier D → Action (Barrier D) Loc
  action luck outside m = access m outside
  action luck (arrive u w) m = access m (subtract u m.phase w)
  action luck (subtract u p w) m =
      access (record m { expected = m.expected - u })
        (if m.expected == u then complete p w else arrived p w)
  action luck (complete p w) m = access (record m { shared = completion m.shared }) (reload p w)
  action luck (reload p w) m = access m (restore m.initial_expected p w)
  action luck (restore n p w) m = access (record m { expected = n }) (advance p w)
  action luck (advance p w) m = access (record m { phase = next_phase p }) (wake p w)
  action luck (wake p w) m = resume_all primary (arrived p w)
  action luck (token p) m = access m (token p)
  action luck (wait p) m = access m (if is_previous p m.phase then outside else sleep p)
  action luck (sleep p) m = wait_if primary (λ m'. (m'.phase == p, m')) (passed p)
  action luck (passed p) m = access m (passed p)
  action luck drop m =
      access (record m { initial_expected = m.initial_expected - 1 }) (arrive 1 false)

  pub data Call : Loc → Loc → Type 0 where
    calls_arrive : (update : ℕ) → Call outside (arrive update false)
    calls_arrive_and_wait : Call outside (arrive 1 true)
    calls_arrive_and_drop : Call outside drop
    calls_wait : (p : ℕ) → Call (token p) (wait p)
    discards : (p : ℕ) → Call (token p) outside
    returns : (p : ℕ) → Call (passed p) outside

  -- The update is at most the counter, as the documentation of `arrive` requires, from which the
  -- assertion follows that the counter was not negative; and `arrive_and_drop` asserts that there is
  -- one arrival to drop. The assertion of `wait` on the phase of its token is not demanded: the code
  -- goes on as without it.
  abbrev pub Allowed : Loc → Barrier D → Type 0
  Allowed (subtract u p w) m = u ≤ m.expected
  Allowed drop m = 0 < m.initial_expected
  Allowed _ m = Unit {0}

  abbrev pub barrier : Program (Barrier D) Loc
  barrier = record { action = action; Call = Call; Allowed = Allowed }

abbrev pub new_barrier : {D : Type 0} → ℕ → D → Barrier D
new_barrier expected d = record {
  initial_expected = expected;
  expected = expected;
  phase = 0;
  shared = d;
}
