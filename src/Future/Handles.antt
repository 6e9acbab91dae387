-- ===== src/Future/Handles.antt =====
-- include/coopsync_tbb/future.hpp: `future`, `shared_future` and `promise`. Each holds a pointer to a
-- shared state, or none.
use coopsync_tbb.Base.{
  ℕ, Bool, true, false, Option, none, some, ◌⊎◌, inl, inr, if◌then◌else◌, update,
}
use coopsync_tbb.Future.{
  no_state, promise_already_satisfied, future_already_retrieved, Exn, future_error, Result, ok,
  throws, and_then, ready, Heap, Got, suspended, got, threw, undefined, user, make_shared,
  set_exception_at, break_promise, set_value_at, wait_at, outcome,
}

-- `m_state`
abbrev pub Handle : Type 0
Handle = Option ℕ

abbrev pub valid : Handle → Bool
valid none = false
valid (some a) = true

abbrev pub ensure_valid : {E : Type 0} → Handle → Result E ℕ
ensure_valid none = throws (future_error no_state)
ensure_valid (some a) = ok a

-- `share`: the shared future and what is left of the future.
unfoldable pub share : {E : Type 0} → Handle → Result E (Handle × Handle)
share f = and_then (ensure_valid f) (λ a. ok (some a, none))

module _ {V E : Type 0} where
  abbrev pub or_satisfied : Option (Heap V E) → Result E (Heap V E)
  or_satisfied none = throws (future_error promise_already_satisfied)
  or_satisfied (some h) = ok h

  unfoldable pub try_wait : Heap V E → Handle → Result E Bool
  try_wait h f = and_then (ensure_valid f) (λ a. ok (ready (h.state a).status))

  -- `wait` for task `i`: whether it goes on at once, and the heap.
  unfoldable pub wait : ℕ → Heap V E → Handle → Result E (Bool × Heap V E)
  wait i h f = and_then (ensure_valid f) (λ a. ok (ready (h.state a).status, wait_at i h a))

  -- `get` of `shared_future` for task `i`, which may be suspended.
  unfoldable pub get_shared : ℕ → Heap V E → Handle → Got V E × Heap V E
  get_shared i h none = (threw (future_error no_state), h)
  get_shared i h (some a) =
      if ready (h.state a).status then (outcome (h.state a), h) else (suspended, wait_at i h a)

  -- What `get` of `future<void>` and `future<T&>` leaves of the future: it is reset after a value.
  abbrev pub after_get : Got V E → Handle → Handle
  after_get (got v) f = none
  after_get _ f = f

  -- `auto out = std::move(*value)` and the `reset` after it, where the move constructor of the type
  -- throws or makes a value, and leaves something in the shared state.
  abbrev pub move_out : Heap V E → ℕ → (E ⊎ V) × V → Got V E × Heap V E × Handle
  move_out h a (inl e, left) = (
    threw (user e),
    record h { state = update h.state a (record (h.state a) { stored = some left }) },
    some a,
  )
  move_out h a (inr v, left) = (
    got v,
    record h { state = update h.state a (record (h.state a) { stored = some left }) },
    none,
  )

  -- What `get` of `future` does after the wait: an exception leaves the future as it is.
  abbrev pub take : (V → (E ⊎ V) × V) → Heap V E → ℕ → Got V E → Got V E × Heap V E × Handle
  take move h a (got v) = move_out h a (move v)
  take move h a (threw e) = (threw e, h, some a)
  take move h a suspended = (suspended, h, some a)
  take move h a undefined = (undefined, h, some a)

  -- `get` of `future` for task `i`, where `move` is the move constructor of the type.
  unfoldable pub get : (V → (E ⊎ V) × V) → ℕ → Heap V E → Handle → Got V E × Heap V E × Handle
  unfolding outcome
  get move i h none = (threw (future_error no_state), h, none)
  get move i h (some a) =
      if ready (h.state a).status
      then take move h a (outcome (h.state a))
      else (suspended, wait_at i h a, some a)

  unfoldable pub make_promise : Heap V E → Handle × Heap V E
  unfolding make_shared
  make_promise h = let (a, h') = make_shared h in (some a, h')

  -- `get_future`, with `mark_future_obtained`.
  abbrev pub obtain : Heap V E → ℕ → Result E (Handle × Heap V E)
  obtain h a =
      if (h.state a).future_obtained
      then throws (future_error future_already_retrieved)
      else ok (
        some a,
        record h { state = update h.state a (record (h.state a) { future_obtained = true }) },
      )

  unfoldable pub get_future : Heap V E → Handle → Result E (Handle × Heap V E)
  get_future h p = and_then (ensure_valid p) (obtain h)

  -- The value goes through the constructor of the type, which may throw.
  unfoldable pub set_value : (V → E ⊎ V) → Heap V E → Handle → V → Result E (Heap V E)
  set_value construct h p v =
      and_then (ensure_valid p) (λ a. or_satisfied (set_value_at h a (construct v)))

  unfoldable pub set_exception : Heap V E → Handle → Exn E → Result E (Heap V E)
  set_exception h p e = and_then (ensure_valid p) (λ a. or_satisfied (set_exception_at h a e))

  -- The destructor of a promise.
  unfoldable pub destroy : Heap V E → Handle → Heap V E
  destroy h none = h
  destroy h (some a) = break_promise h a

-- `swap` of two promises.
unfoldable pub swap : Handle → Handle → Handle × Handle
swap p other = (other, p)

-- The move constructor: the new handle, and what is left of the other one.
unfoldable pub move_construct : Handle → Handle × Handle
move_construct other = (other, none)

-- The defaulted move assignment: the target's shared state is only released.
unfoldable pub move_assign : Handle → Handle → Handle × Handle
move_assign p other = (other, none)
