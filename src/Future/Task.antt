-- ===== src/Future/Task.antt =====
-- include/coopsync_tbb/future.hpp: `packaged_task`.
use coopsync_tbb.Base.{ℕ, Option, none, some, ◌⊎◌, inl, inr}
use coopsync_tbb.Future.{
  promise_already_satisfied, future_error, user, Result, ok, and_then, Heap, make_shared,
  set_exception_at, break_promise, set_value_at,
}
use coopsync_tbb.Future.Handles.{Handle, ensure_valid, or_satisfied, obtain, destroy}

-- `m_function`, which may be empty, and `m_state`. The function returns or throws.
pub record PackagedTask (A V E : Type 0) : Type 0 where
  pub function : Option (A → E ⊎ V)
  pub handle : Handle

-- What the call of `m_function` comes to; `bad_function_call` is what an empty one throws.
abbrev pub call : {A V E : Type 0} → E → Option (A → E ⊎ V) → A → E ⊎ V
call bad_function_call none x = inl bad_function_call
call bad_function_call (some f) x = f x

abbrev pub or_else : {A : Type 0} → Option A → Option A → Option A
or_else none y = y
or_else (some x) y = some x

-- `invoke_and_set` with the handler of `operator()` for what it throws.
abbrev pub invoke_and_set : {V E : Type 0} → (V → E ⊎ V) → Heap V E → ℕ → E ⊎ V → Option (Heap V E)
invoke_and_set construct h a (inl e) = set_exception_at h a (user e)
invoke_and_set construct h a (inr v) =
    or_else (set_value_at h a (construct v))
      (set_exception_at h a (future_error promise_already_satisfied))

module _ {A V E : Type 0} where
  abbrev pub empty_task : PackagedTask A V E
  empty_task = record { function = none; handle = none }

  unfoldable pub make_task : Heap V E → Option (A → E ⊎ V) → PackagedTask A V E × Heap V E
  unfolding make_shared
  make_task h f = let (a, h') = make_shared h in (record { function = f; handle = some a }, h')

  -- The move constructor: the new task, and what is left of the other one.
  unfoldable pub move_task : PackagedTask A V E → PackagedTask A V E × PackagedTask A V E
  move_task other = (other, empty_task)

  -- The move assignment, for two different objects.
  unfoldable pub assign_task :
      Heap V E
      → PackagedTask A V E
      → PackagedTask A V E
      → PackagedTask A V E × PackagedTask A V E × Heap V E
  assign_task h t other = (other, empty_task, destroy h t.handle)

  unfoldable pub destroy_task : Heap V E → PackagedTask A V E → Heap V E
  destroy_task h t = destroy h t.handle

  unfoldable pub swap_task :
      PackagedTask A V E → PackagedTask A V E → PackagedTask A V E × PackagedTask A V E
  swap_task t other = (
    record { function = other.function; handle = other.handle },
    record { function = t.function; handle = t.handle },
  )

  unfoldable pub get_task_future : Heap V E → PackagedTask A V E → Result E (Handle × Heap V E)
  get_task_future h t = and_then (ensure_valid t.handle) (obtain h)

  -- `operator()`
  unfoldable pub run_task :
      (V → E ⊎ V) → E → Heap V E → PackagedTask A V E → A → Result E (Heap V E)
  run_task construct bad_function_call h t x =
      and_then (ensure_valid t.handle)
        (λ a. or_satisfied (invoke_and_set construct h a (call bad_function_call t.function x)))

  unfoldable pub reset : Heap V E → PackagedTask A V E → Result E (PackagedTask A V E × Heap V E)
  unfolding make_shared
  reset h t =
      and_then (ensure_valid t.handle) (λ a.
        let (a', h') = make_shared h in ok (record t { handle = some a' }, break_promise h' a))
