-- ===== src/Future/Concurrent.antt =====
-- `shared_state` of include/coopsync_tbb/future.hpp as a program for the machine: any number of tasks
-- that set a value or an exception, break the promise, or get the result through a `shared_future`.
-- `get` of a `future`, which moves the value out of the state, is in Handles.
mod Waits
pub mod Ready
pub mod Agreement
use coopsync_tbb.Base.{Bool, Option, none, some, ◌⊎◌, inl, inr, if◌then◌else◌, not}
use coopsync_tbb.Machine.{Action, access, wait_if, resume_all, primary, Program}
use coopsync_tbb.Future.{
  Errc, promise_already_satisfied, Exn, user, Status, empty, value, exception, broken, transition,
  is_empty, ready, Got, read_outcome,
}

-- `state`, `value` and `exception`.
pub record Cell (V E : Type 0) : Type 0 where
  pub status : Status
  pub stored : Option V
  pub error : Option (Exn E)

abbrev pub new_cell : {V E : Type 0} → Cell V E
new_cell = record { status = empty; stored = none; error = none }

-- The places between two accesses. A task from `emplace` to a `publish` has exchanged the status.
pub data Loc (V E : Type 0) : Type 0 where
  outside : Loc V E
  set_value : V → Loc V E  -- the exchange of `set_value`
  emplace : V → Loc V E  -- the construction of the value
  publish_value : Loc V E  -- the store of the status
  set_exception : Exn E → Loc V E  -- the exchange of `set_exception`
  keep : Exn E → Loc V E  -- the store of the exception
  publish_exception : Loc V E  -- the store of the status
  break : Loc V E  -- `break_promise`
  wake : Loc V E  -- `waiters.resume_all()`
  refused : Errc → Loc V E  -- a call has thrown
  wait : Loc V E  -- `wait`, in `get` of a `shared_future`
  look : Loc V E  -- the load of the status after it
  fetch : Status → Loc V E  -- what is thrown or read for this status
  finished : Got V E → Loc V E  -- the result of `get`

module _ {V E : Type 0} where
  -- `state.compare_exchange_strong(empty, desired)`, and where the code goes on.
  abbrev pub try_exchange : Cell V E → Status → Loc V E → Loc V E → Action (Cell V E) (Loc V E)
  try_exchange m desired success failure =
      if is_empty m.status then access (record m { status = desired }) success else access m failure

  -- The construction of the value and the handler of what it throws.
  abbrev pub try_emplace : Cell V E → E ⊎ V → Action (Cell V E) (Loc V E)
  try_emplace m (inl e) = access m (keep (user e))
  try_emplace m (inr v) = access (record m { stored = some v }) publish_value

  unfoldable pub action : (V → E ⊎ V) → Bool → Loc V E → Cell V E → Action (Cell V E) (Loc V E)
  action construct luck outside m = access m outside
  action construct luck (set_value v) m =
      try_exchange m transition (emplace v) (refused promise_already_satisfied)
  action construct luck (emplace v) m = try_emplace m (construct v)
  action construct luck publish_value m = access (record m { status = value }) wake
  action construct luck (set_exception e) m =
      try_exchange m transition (keep e) (refused promise_already_satisfied)
  action construct luck (keep e) m = access (record m { error = some e }) publish_exception
  action construct luck publish_exception m = access (record m { status = exception }) wake
  action construct luck break m = try_exchange m broken wake outside
  action construct luck wake m = resume_all primary outside
  action construct luck (refused e) m = access m (refused e)
  action construct luck wait m = wait_if primary (λ m'. (not (ready m'.status), m')) look
  action construct luck look m = access m (fetch m.status)
  action construct luck (fetch st) m = access m (finished (read_outcome st m.stored m.error))
  action construct luck (finished g) m = access m (finished g)

  pub data Call : Loc V E → Loc V E → Type 0 where
    calls_set_value : (v : V) → Call outside (set_value v)
    calls_set_exception : (e : Exn E) → Call outside (set_exception e)
    calls_break : Call outside break
    calls_get : Call outside wait
    catches : (e : Errc) → Call (refused e) outside
    returns : (g : Got V E) → Call (finished g) outside

  abbrev pub shared_state : (V → E ⊎ V) → Program (Cell V E) (Loc V E)
  shared_state construct = record {
    action = action construct;
    Call = Call;
    Allowed = λ l m. Unit {0};
  }
