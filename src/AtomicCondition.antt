-- ===== src/AtomicCondition.antt =====
-- include/coopsync_tbb/atomic_condition.hpp as a program for the machine. The comparison of two values,
-- `memcmp`, is a parameter. Ref is atomic_ref_condition.hpp, and Flag atomic_flag.hpp.
pub mod Atomic
pub mod Notify
pub mod Ref
pub mod Flag
use coopsync_tbb.Base.{◌≡◌, Bool, true, not, if◌then◌else◌}
use coopsync_tbb.Machine.{Action, access, wait_if, resume_one, resume_all, primary, Program}
use Atomic.{Order, seq_cst, loads, Reference}

module _ (T : Type 0) where
  -- `m_value`
  pub record Condition : Type 0 where
    pub value : T

  -- The places between two atomic accesses.
  pub data Loc : Type 0 where
    outside : Loc
    assign : T → Loc  -- a store to the atomic value, which the class gives out
    assigned : Loc  -- after it, before the caller notifies
    wait : (old : T) → Order → Loc  -- the head of the loop of `wait`
    sleep : (old : T) → Order → Loc  -- its `wait_if`
    notify_one : Loc
    notify_all : Loc

-- `atomic`, `operator*` and `operator->` give out `m_value`; so do their const overloads, for loads.
module _ {T : Type 0} where
  abbrev pub atomic : Reference (Condition T) T
  atomic = record { load = λ m. m.value; store = λ v m. record { value = v } }

  abbrev pub dereference : Reference (Condition T) T
  dereference = atomic

  abbrev pub member_access : Reference (Condition T) T
  member_access = atomic

  abbrev pub atomic_const : Condition T → T
  atomic_const m = m.value

  abbrev pub dereference_const : Condition T → T
  dereference_const m = m.value

  abbrev pub member_access_const : Condition T → T
  member_access_const m = m.value

module _ {T : Type 0} (same : T → T → Bool) where
  unfoldable pub action : Bool → Loc T → Condition T → Action (Condition T) (Loc T)
  action luck outside m = access m outside
  action luck (assign v) m = access (atomic.store v m) assigned
  action luck assigned m = access m assigned
  action luck (wait old o) m = access m (if not (same m.value old) then outside else sleep old o)
  action luck (sleep old o) m = wait_if primary (λ m'. (same m'.value old, m')) (wait old o)
  action luck notify_one m = resume_one primary (λ _. outside)
  action luck notify_all m = resume_all primary outside

  -- A task that changes the value notifies all waiters next.
  pub data Call : Loc T → Loc T → Type 0 where
    assigns : (v : T) → Call outside (assign v)
    notifies_all : Call assigned notify_all
    calls_wait : (old : T) (o : Order) → Call outside (wait old o)
    calls_notify_one : Call outside notify_one
    calls_notify_all : Call outside notify_all

  -- The assertions on the memory order of `wait`.
  abbrev pub Allowed : Loc T → Condition T → Type 0
  Allowed (wait old o) m = loads o ≡ true
  Allowed _ m = Unit {0}

  abbrev pub condition : Program (Condition T) (Loc T)
  condition = record { action = action; Call = Call; Allowed = Allowed }

-- The functions that take a pointer to the condition, which is asserted not to be null.
abbrev pub atomic_wait : {T : Type 0} → T → Loc T
atomic_wait old = wait old seq_cst

abbrev pub atomic_wait_explicit : {T : Type 0} → T → Order → Loc T
atomic_wait_explicit old o = wait old o

abbrev pub atomic_notify_one : {T : Type 0} → Loc T
atomic_notify_one = notify_one

abbrev pub atomic_notify_all : {T : Type 0} → Loc T
atomic_notify_all = notify_all
