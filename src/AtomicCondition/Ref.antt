-- ===== src/AtomicCondition/Ref.antt =====
-- include/coopsync_tbb/atomic_ref_condition.hpp as a program for the machine: an original and a copy of
-- it, which refer to the same value and have a wait queue each.
pub mod Notify
use coopsync_tbb.Base.{◌≡◌, Bool, true, false, not, if◌then◌else◌}
use coopsync_tbb.AtomicCondition.Atomic.{Order, loads, Reference}
use coopsync_tbb.Machine.{
  QueueId, Action, access, wait_if, resume_one, resume_all, primary, secondary, Program,
}

-- `m_waiters`: the first queue belongs to the original, the second to the copy.
abbrev pub original : QueueId
original = primary

abbrev pub copy : QueueId
copy = secondary

module _ (T : Type 0) where
  -- The object that `m_value` refers to, which is the caller's.
  pub record Referred : Type 0 where
    pub value : T

  -- The places between two atomic accesses, with the condition that a task uses.
  pub data Loc : Type 0 where
    outside : Loc
    assign : T → Loc  -- a store to the atomic value, which the class gives out
    assigned : Loc  -- after it, before the caller notifies on the original
    told : Loc  -- after that, before the caller notifies on the copy
    wait : (c : QueueId) (old : T) → Order → Loc  -- the head of the loop of `wait`
    sleep : (c : QueueId) (old : T) → Order → Loc  -- its `wait_if`
    notify_one : QueueId → Loc
    notify_all : (c : QueueId) (more : Bool) → Loc  -- whether the caller notifies on the copy next

-- `atomic`, `operator*` and `operator->` give out `m_value`; so do their const overloads, for loads.
module _ {T : Type 0} where
  abbrev pub atomic : Reference (Referred T) T
  atomic = record { load = λ m. m.value; store = λ v m. record { value = v } }

  abbrev pub dereference : Reference (Referred T) T
  dereference = atomic

  abbrev pub member_access : Reference (Referred T) T
  member_access = atomic

  abbrev pub atomic_const : Referred T → T
  atomic_const m = m.value

  abbrev pub dereference_const : Referred T → T
  dereference_const m = m.value

  abbrev pub member_access_const : Referred T → T
  member_access_const m = m.value

module _ {T : Type 0} (same : T → T → Bool) where
  unfoldable pub action : Bool → Loc T → Referred T → Action (Referred T) (Loc T)
  action luck outside m = access m outside
  action luck (assign v) m = access (atomic.store v m) assigned
  action luck assigned m = access m assigned
  action luck told m = access m told
  action luck (wait c old o) m =
      access m (if not (same m.value old) then outside else sleep c old o)
  action luck (sleep c old o) m = wait_if c (λ m'. (same m'.value old, m')) (wait c old o)
  action luck (notify_one c) m = resume_one c (λ _. outside)
  action luck (notify_all c more) m = resume_all c (if more then told else outside)

  -- A task that changes the value notifies all waiters of both conditions next.
  pub data Call : Loc T → Loc T → Type 0 where
    assigns : (v : T) → Call outside (assign v)
    notifies_original : Call assigned (notify_all original true)
    notifies_copy : Call told (notify_all copy false)
    calls_wait : (c : QueueId) (old : T) (o : Order) → Call outside (wait c old o)
    calls_notify_one : (c : QueueId) → Call outside (notify_one c)
    calls_notify_all : (c : QueueId) → Call outside (notify_all c false)

  -- The assertions on the memory order of `wait`.
  abbrev pub Allowed : Loc T → Referred T → Type 0
  Allowed (wait c old o) m = loads o ≡ true
  Allowed _ m = Unit {0}

  abbrev pub atomic_ref_condition : Program (Referred T) (Loc T)
  atomic_ref_condition = record { action = action; Call = Call; Allowed = Allowed }
