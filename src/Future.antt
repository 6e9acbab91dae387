-- ===== src/Future.antt =====
-- include/coopsync_tbb/future.hpp: the shared state of a promise and its futures. Each operation is
-- one step here, with the state that it leaves. What `shared_state` does with a value is the same
-- for the specialisations: `V` is the unit type for `void`, and the type of pointers for `T&`.
pub mod Handles
pub mod Task
pub mod Laws
pub mod Objects
pub mod Concurrent
pub mod Storage
pub mod Specialised
pub mod Classes
use coopsync_tbb.Base.{
  ℕ, ◌+◌, Bool, true, false, Option, none, some, List, [], ◌∷◌, ◌++◌, ◌⊎◌, inl, inr, if◌then◌else◌,
  not, update,
}

-- `std::future_errc`
pub data Errc : Type 0 where
  no_state promise_already_satisfied future_already_retrieved broken_promise : Errc

-- An exception: one of the library's or one of the user's.
pub data Exn (E : Type 0) : Type 0 where
  future_error : Errc → Exn E
  user : E → Exn E

pub data Result (E A : Type 0) : Type 0 where
  ok : A → Result E A
  throws : Exn E → Result E A

abbrev pub and_then : {E A B : Type 0} → Result E A → (A → Result E B) → Result E B
and_then (ok x) f = f x
and_then (throws e) f = throws e

-- `status`
pub data Status : Type 0 where
  empty value exception broken transition : Status

abbrev pub is_empty : Status → Bool
is_empty empty = true
is_empty _ = false

-- `ready` of the shared state
abbrev pub ready : Status → Bool
ready value = true
ready exception = true
ready broken = true
ready _ = false

module _ (V E : Type 0) where
  pub record SharedState : Type 0 where
    pub status : Status
    pub stored : Option V
    pub error : Option (Exn E)
    pub future_obtained : Bool
    pub waiters : List ℕ

  -- All shared states, of which `size` have been made, and the tasks resumed so far.
  pub record Heap : Type 0 where
    pub state : ℕ → SharedState
    pub size : ℕ
    pub resumed : List ℕ

-- How `get` ends: `undefined` where the code relies on something that it only asserts.
pub data Got (V E : Type 0) : Type 0 where
  suspended : Got V E
  got : V → Got V E
  threw : Exn E → Got V E
  undefined : Got V E

module _ {V E : Type 0} where
  abbrev pub new_state : SharedState V E
  new_state = record {
    status = empty;
    stored = none;
    error = none;
    future_obtained = false;
    waiters = [];
  }

  -- `std::make_shared`
  unfoldable pub make_shared : Heap V E → ℕ × Heap V E
  make_shared h = (h.size, record h { state = update h.state h.size new_state; size = h.size + 1 })

  -- A change of a shared state that keeps its waiters, and the `resume_all` that follows.
  abbrev pub settle : Heap V E → ℕ → (SharedState V E → SharedState V E) → Heap V E
  settle h a f = record h {
    state = update h.state a (record (f (h.state a)) { waiters = [] });
    resumed = h.resumed ++ (h.state a).waiters;
  }

  -- The exchange of `empty` for another status, which may fail, and what follows it.
  abbrev pub exchange : Heap V E → ℕ → (SharedState V E → SharedState V E) → Option (Heap V E)
  exchange h a f = if is_empty (h.state a).status then some (settle h a f) else none

  -- `none` where the function throws `promise_already_satisfied`
  unfoldable pub set_exception_at : Heap V E → ℕ → Exn E → Option (Heap V E)
  set_exception_at h a e = exchange h a (λ s. record s { status = exception; error = some e })

  abbrev pub or_kept : Heap V E → Option (Heap V E) → Heap V E
  or_kept h none = h
  or_kept h (some h') = h'

  unfoldable pub break_promise : Heap V E → ℕ → Heap V E
  break_promise h a = or_kept h (exchange h a (λ s. record s { status = broken }))

  -- What the constructor of the value makes is `r`: a value or an exception.
  unfoldable pub set_value_at : Heap V E → ℕ → E ⊎ V → Option (Heap V E)
  set_value_at h a (inl e) =
      exchange h a (λ s. record s { status = exception; error = some (user e) })
  set_value_at h a (inr v) = exchange h a (λ s. record s { status = value; stored = some v })

  -- `wait` of the shared state for task `i`
  unfoldable pub wait_at : ℕ → Heap V E → ℕ → Heap V E
  wait_at i h a =
      if not (ready (h.state a).status)
      then (record h {
        state = update h.state a (record (h.state a) { waiters = (h.state a).waiters ++ i ∷ [] });
      })
      else h

  -- What `throw_if_exception_or_broken` comes to for a status, and the value where it throws nothing.
  abbrev pub read_outcome : Status → Option V → Option (Exn E) → Got V E
  read_outcome exception v none = undefined
  read_outcome exception v (some e) = threw e
  read_outcome broken v e = threw (future_error broken_promise)
  read_outcome value none e = undefined
  read_outcome value (some v) e = got v
  read_outcome empty v e = undefined
  read_outcome transition v e = undefined

  unfoldable pub outcome : SharedState V E → Got V E
  outcome s = read_outcome s.status s.stored s.error
