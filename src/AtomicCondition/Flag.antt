-- ===== src/AtomicCondition/Flag.antt =====
-- include/coopsync_tbb/atomic_flag.hpp and src/atomic_flag.cpp as a program for the machine.
pub mod Notify
use coopsync_tbb.Base.{Bool, true, false, not, ◌≡◌, if◌then◌else◌}
use coopsync_tbb.AtomicCondition.Atomic.{Order, seq_cst, stores, loads, Reference}
use coopsync_tbb.Machine.{Action, access, wait_if, resume_one, resume_all, primary, Program}

-- `m_value`
pub record Flag : Type 0 where
  pub value : Bool

-- `atomic`, `operator*` and `operator->` give out `m_value`; so do their const overloads, for tests.
abbrev pub atomic : Reference Flag Bool
atomic = record { load = λ m. m.value; store = λ b m. record { value = b } }

abbrev pub dereference : Reference Flag Bool
dereference = atomic

abbrev pub member_access : Reference Flag Bool
member_access = atomic

abbrev pub atomic_const : Flag → Bool
atomic_const m = m.value

abbrev pub dereference_const : Flag → Bool
dereference_const m = m.value

abbrev pub member_access_const : Flag → Bool
member_access_const m = m.value

pub data Loc : Type 0 where
  outside : Loc
  clear : Order → Loc
  cleared : Loc  -- after it, before the caller notifies
  test_and_set : Order → Loc
  was_set : Bool → Loc  -- its result
  test : Order → Loc
  tested : Bool → Loc  -- its result
  wait : (old : Bool) → Order → Loc  -- the head of the loop of `wait`
  sleep : (old : Bool) → Order → Loc  -- its `wait_if`
  notify_one : Loc
  notify_all : Loc

-- `==` of two Booleans
abbrev pub bool_eq : Bool → Bool → Bool
bool_eq old b = if old then b else not b

unfoldable pub action : Bool → Loc → Flag → Action Flag Loc
action luck outside m = access m outside
action luck (clear o) m = access (atomic.store false m) cleared
action luck cleared m = access m cleared
action luck (test_and_set o) m = access (atomic.store true m) (was_set (atomic.load m))
action luck (was_set b) m = access m (was_set b)
action luck (test o) m = access m (tested (atomic.load m))
action luck (tested b) m = access m (tested b)
action luck (wait old o) m = access m (if not (bool_eq old m.value) then outside else sleep old o)
action luck (sleep old o) m = wait_if primary (λ m'. (bool_eq old m'.value, m')) (wait old o)
action luck notify_one m = resume_one primary (λ _. outside)
action luck notify_all m = resume_all primary outside

-- The assertions on the memory orders.
abbrev pub Allowed : Loc → Flag → Type 0
Allowed (clear o) m = stores o ≡ true
Allowed (test o) m = loads o ≡ true
Allowed (wait old o) m = loads o ≡ true
Allowed _ m = Unit {0}

-- The functions that take a pointer to the flag, which is asserted not to be null.
abbrev pub atomic_flag_clear : Loc
atomic_flag_clear = clear seq_cst

abbrev pub atomic_flag_clear_explicit : Order → Loc
atomic_flag_clear_explicit o = clear o

abbrev pub atomic_flag_test_and_set : Loc
atomic_flag_test_and_set = test_and_set seq_cst

abbrev pub atomic_flag_test_and_set_explicit : Order → Loc
atomic_flag_test_and_set_explicit o = test_and_set o

abbrev pub atomic_flag_test : Loc
atomic_flag_test = test seq_cst

abbrev pub atomic_flag_test_explicit : Order → Loc
atomic_flag_test_explicit o = test o

abbrev pub atomic_flag_wait : Bool → Loc
atomic_flag_wait old = wait old seq_cst

abbrev pub atomic_flag_wait_explicit : Bool → Order → Loc
atomic_flag_wait_explicit old o = wait old o

abbrev pub atomic_flag_notify_one : Loc
atomic_flag_notify_one = notify_one

abbrev pub atomic_flag_notify_all : Loc
atomic_flag_notify_all = notify_all

-- A task that changes the flag notifies all waiters next; `test_and_set` has changed it if it was
-- clear.
pub data Call : Loc → Loc → Type 0 where
  calls_clear : (o : Order) → Call outside (clear o)
  clear_notifies : Call cleared notify_all
  calls_test_and_set : (o : Order) → Call outside (test_and_set o)
  set_notifies : (b : Bool) → Call (was_set b) notify_all
  set_returns : Call (was_set true) outside
  calls_test : (o : Order) → Call outside (test o)
  test_returns : (b : Bool) → Call (tested b) outside
  calls_wait : (old : Bool) (o : Order) → Call outside (wait old o)
  calls_notify_one : Call outside notify_one
  calls_notify_all : Call outside notify_all

abbrev pub atomic_flag : Program Flag Loc
atomic_flag = record { action = action; Call = Call; Allowed = Allowed }
