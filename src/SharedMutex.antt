-- ===== src/SharedMutex.antt =====
-- include/coopsync_tbb/shared_mutex.hpp and src/shared_mutex.cpp, as a program for the machine.
pub mod Exclusion
pub mod Ownership
pub mod Readers
pub mod Destruction
pub mod LostWakeup
pub mod ScopedLock
use coopsync_tbb.Base.{
  ◌≡◌, Bool, true, false, not, ◌&&◌, if◌then◌else◌, ℤ, pos, negsuc, int_eq, is_neg, is_pos, add_one,
  sub_one, above_one,
}
use coopsync_tbb.Machine.{
  QueueId, Action, access, wait_if, resume_one, resume_all, primary, secondary, Program,
}

-- `m_state`: the number of readers, or a negative value while a writer or a hand-over owns it.
pub record SharedMutex : Type 0 where
  pub state : ℤ

abbrev pub k_transition : ℤ
k_transition = negsuc 1

abbrev pub k_writer_locked : ℤ
k_writer_locked = negsuc 0

abbrev pub writer_waiters : QueueId
writer_waiters = primary

abbrev pub reader_waiters : QueueId
reader_waiters = secondary

-- The places between two atomic accesses, with the local variable `state`.
pub data Loc : Type 0 where
  outside : Loc
  try : Loc  -- `try_lock`
  lock : Loc  -- the `try_lock` of `lock`
  wait : Loc  -- the `wait_if` of `lock`
  writer : Loc  -- `lock` or `try_lock` has succeeded
  unlock : Loc  -- the `resume_one` of `unlock`
  try_shared : Loc  -- the load of `try_lock_shared`
  try_shared_loop : ℤ → Loc  -- the head of its loop
  lock_shared : Loc  -- the same two places in the `try_lock_shared` of `lock_shared`
  lock_shared_loop : ℤ → Loc
  wait_shared : Loc  -- the body of the loop of `lock_shared`
  reader : Loc  -- `lock_shared` or `try_lock_shared` has succeeded
  unlock_shared : Loc  -- the load of `unlock_shared`
  unlock_shared_loop : ℤ → Loc  -- the head of its loop
  transition : Loc  -- before its store of `k_writer_locked`
  hand_over : Loc  -- its `resume_one`
  clear : Loc  -- the store of 0, in `unlock` and `unlock_shared`
  wake_readers : Loc  -- the `resume_all` that follows

-- `m_state.compare_exchange_strong(0, k_writer_locked)`
abbrev pub try_lock : SharedMutex → Bool × SharedMutex
try_lock m =
    if int_eq m.state (pos 0) then (true, record { state = k_writer_locked }) else (false, m)

-- The predicate of `lock`, which takes the lock when it can.
abbrev pub cannot_lock : SharedMutex → Bool × SharedMutex
cannot_lock m = (not (try_lock m).0, (try_lock m).1)

-- One round of the loop of `try_lock_shared`: where it goes on success, in the next round, and when
-- the loop ends.
abbrev pub try_shared_round :
    Bool → SharedMutex → ℤ → Loc → (ℤ → Loc) → Loc → Action SharedMutex Loc
try_shared_round luck m state success again failure =
    if not (is_neg state)
    then (if not luck && int_eq m.state state
        then access (record { state = add_one state }) success
        else access m (again m.state))
    else access m failure

-- One round of the loop of `unlock_shared`.
abbrev pub unlock_shared_round : Bool → SharedMutex → ℤ → Action SharedMutex Loc
unlock_shared_round luck m state =
    if above_one state
    then (if not luck && int_eq m.state state
        then access (record { state = sub_one state }) outside
        else access m (unlock_shared_loop m.state))
    else (if not luck && int_eq m.state state
        then access (record { state = k_transition }) transition
        else access m (unlock_shared_loop m.state))

unfoldable pub action : Bool → Loc → SharedMutex → Action SharedMutex Loc
action luck outside m = access m outside
action luck try m = access (try_lock m).1 (if (try_lock m).0 then writer else outside)
action luck lock m = access (try_lock m).1 (if (try_lock m).0 then writer else wait)
action luck wait m = wait_if writer_waiters cannot_lock writer
action luck writer m = access m writer
action luck unlock m = resume_one writer_waiters (λ resumed. if resumed then outside else clear)
action luck try_shared m = access m (try_shared_loop m.state)
action luck (try_shared_loop state) m = try_shared_round luck m state reader try_shared_loop outside
action luck lock_shared m = access m (lock_shared_loop m.state)
action luck (lock_shared_loop state) m =
    try_shared_round luck m state reader lock_shared_loop wait_shared
action luck wait_shared m = wait_if reader_waiters (λ m'. (is_neg m'.state, m')) lock_shared
action luck reader m = access m reader
action luck unlock_shared m = access m (unlock_shared_loop m.state)
action luck (unlock_shared_loop state) m = unlock_shared_round luck m state
action luck transition m = access (record { state = k_writer_locked }) hand_over
action luck hand_over m = resume_one writer_waiters (λ resumed. if resumed then outside else clear)
action luck clear m = access (record { state = pos 0 }) wake_readers
action luck wake_readers m = resume_all reader_waiters outside

pub data Call : Loc → Loc → Type 0 where
  calls_try_lock : Call outside try
  calls_lock : Call outside lock
  calls_unlock : Call writer unlock
  calls_try_lock_shared : Call outside try_shared
  calls_lock_shared : Call outside lock_shared
  calls_unlock_shared : Call reader unlock_shared

-- The assertions of `unlock` and `unlock_shared`.
abbrev pub Allowed : Loc → SharedMutex → Type 0
Allowed unlock m = m.state ≡ k_writer_locked
Allowed (unlock_shared_loop state) m = is_pos state ≡ true
Allowed _ m = Unit {0}

abbrev pub shared_mutex : Program SharedMutex Loc
shared_mutex = record { action = action; Call = Call; Allowed = Allowed }

abbrev pub unlocked : SharedMutex
unlocked = record { state = pos 0 }
