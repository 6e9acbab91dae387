-- ===== src/Future/Classes.antt =====
-- The public classes of include/coopsync_tbb/future.hpp, which derive from `future_base` and
-- `promise_base`: for each of them, and for its specialisations for `void` and for references, what its
-- members do.
pub mod Laws
pub mod SharedLaws
pub mod PromiseLaws
use coopsync_tbb.Base.{ℕ, Bool, none, some, ◌⊎◌}
use coopsync_tbb.Future.{Exn, Result, Heap, Got}
use coopsync_tbb.Future.Handles.{
  Handle, valid, share, try_wait, wait, get_shared, get, make_promise, get_future, set_value,
  set_exception, destroy, swap, move_construct, move_assign,
}
use coopsync_tbb.Future.Specialised.{
  set_void, get_shared_void, get_void, set_reference, get_shared_reference, get_reference,
}

module _ (V E : Type 0) where
  -- The members of `future`. A move gives the new handle and what is left of the other one.
  pub record FutureClass : Type 0 where
    pub construct : Handle
    pub from_state : ℕ → Handle
    pub move : Handle → Handle × Handle
    pub assign : Handle → Handle → Handle × Handle
    pub is_valid : Handle → Bool
    pub tries : Heap V E → Handle → Result E Bool
    pub waits : ℕ → Heap V E → Handle → Result E (Bool × Heap V E)
    pub gets : ℕ → Heap V E → Handle → Got V E × Heap V E × Handle
    pub shares : Handle → Result E (Handle × Handle)

  -- The members of `shared_future`, which can be copied.
  pub record SharedFutureClass : Type 0 where
    pub construct : Handle
    pub from_state : ℕ → Handle
    pub copy : Handle → Handle × Handle
    pub copy_assign : Handle → Handle → Handle × Handle
    pub move : Handle → Handle × Handle
    pub assign : Handle → Handle → Handle × Handle
    pub is_valid : Handle → Bool
    pub tries : Heap V E → Handle → Result E Bool
    pub waits : ℕ → Heap V E → Handle → Result E (Bool × Heap V E)
    pub gets : ℕ → Heap V E → Handle → Got V E × Heap V E

  -- The members of `promise`.
  pub record PromiseClass : Type 0 where
    pub construct : Heap V E → Handle × Heap V E
    pub move : Handle → Handle × Handle
    pub assign : Handle → Handle → Handle × Handle
    pub destructs : Heap V E → Handle → Heap V E
    pub swaps : Handle → Handle → Handle × Handle
    pub obtains : Heap V E → Handle → Result E (Handle × Heap V E)
    pub sets : Heap V E → Handle → V → Result E (Heap V E)
    pub fails : Heap V E → Handle → Exn E → Result E (Heap V E)

-- The defaulted copies of a handle: both refer to the same state.
abbrev pub copy_construct : Handle → Handle × Handle
copy_construct other = (other, other)

abbrev pub copy_assign : Handle → Handle → Handle × Handle
copy_assign f other = (other, other)

module _ {V E : Type 0} where
  -- The constructors of the value may throw.
  abbrev pub future : (V → (E ⊎ V) × V) → FutureClass V E
  future move' = record {
    construct = none;
    from_state = λ a. some a;
    move = move_construct;
    assign = move_assign;
    is_valid = valid;
    tries = try_wait;
    waits = wait;
    gets = get move';
    shares = share;
  }

  abbrev pub shared_future : SharedFutureClass V E
  shared_future = record {
    construct = none;
    from_state = λ a. some a;
    copy = copy_construct;
    copy_assign = copy_assign;
    move = move_construct;
    assign = move_assign;
    is_valid = valid;
    tries = try_wait;
    waits = wait;
    gets = get_shared;
  }

  abbrev pub promise : (V → E ⊎ V) → PromiseClass V E
  promise build = record {
    construct = make_promise;
    move = move_construct;
    assign = move_assign;
    destructs = destroy;
    swaps = swap;
    obtains = get_future;
    sets = set_value build;
    fails = set_exception;
  }

module _ {E : Type 0} where
  abbrev pub future_void : FutureClass (Unit {0}) E
  future_void = record {
    construct = none;
    from_state = λ a. some a;
    move = move_construct;
    assign = move_assign;
    is_valid = valid;
    tries = try_wait;
    waits = wait;
    gets = get_void;
    shares = share;
  }

  abbrev pub shared_future_void : SharedFutureClass (Unit {0}) E
  shared_future_void = record {
    construct = none;
    from_state = λ a. some a;
    copy = copy_construct;
    copy_assign = copy_assign;
    move = move_construct;
    assign = move_assign;
    is_valid = valid;
    tries = try_wait;
    waits = wait;
    gets = get_shared_void;
  }

  -- `set_value` has no argument.
  abbrev pub promise_void : PromiseClass (Unit {0}) E
  promise_void = record {
    construct = make_promise;
    move = move_construct;
    assign = move_assign;
    destructs = destroy;
    swaps = swap;
    obtains = get_future;
    sets = λ h p u. set_void h p;
    fails = set_exception;
  }

  abbrev pub future_reference : FutureClass ℕ E
  future_reference = record {
    construct = none;
    from_state = λ a. some a;
    move = move_construct;
    assign = move_assign;
    is_valid = valid;
    tries = try_wait;
    waits = wait;
    gets = get_reference;
    shares = share;
  }

  abbrev pub shared_future_reference : SharedFutureClass ℕ E
  shared_future_reference = record {
    construct = none;
    from_state = λ a. some a;
    copy = copy_construct;
    copy_assign = copy_assign;
    move = move_construct;
    assign = move_assign;
    is_valid = valid;
    tries = try_wait;
    waits = wait;
    gets = get_shared_reference;
  }

  abbrev pub promise_reference : PromiseClass ℕ E
  promise_reference = record {
    construct = make_promise;
    move = move_construct;
    assign = move_assign;
    destructs = destroy;
    swaps = swap;
    obtains = get_future;
    sets = set_reference;
    fails = set_exception;
  }
