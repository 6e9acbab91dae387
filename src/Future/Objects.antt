-- ===== src/Future/Objects.antt =====
-- A program's promises and futures, which share states on one heap. Its steps are the operations of
-- `promise` and `future` in include/coopsync_tbb/future.hpp that do not throw, and the accesses to a
-- shared state that those which settle it consist of, between which other steps may come.
pub mod Changes
pub mod Sound
pub mod Owners
pub mod Abandoned
use coopsync_tbb.Base.{ℕ, ◌≡◌, ◌≢◌, ◌⊎◌, inl, inr, Bool, true, none, some, [], ◌++◌, update}
use coopsync_tbb.Future.{
  Exn, ok, Status, value, exception, broken, transition, is_empty, ready, Heap, new_state,
}
use coopsync_tbb.Future.Handles.{
  Handle, wait, get, make_promise, get_future, set_value, set_exception, destroy, swap, move_assign,
  share,
}

module _ (V E : Type 0) where
  pub record Objects : Type 0 where
    pub heap : Heap V E
    pub promise : ℕ → Handle
    pub future : ℕ → Handle

module _ {V E : Type 0} where
  abbrev pub start : Objects V E
  start = record {
    heap = record { state = λ _. new_state; size = 0; resumed = [] };
    promise = λ _. none;
    future = λ _. none;
  }

  -- A store to the status of a shared state.
  abbrev pub exchanged : Heap V E → ℕ → Status → Heap V E
  exchanged h a st = record h { state = update h.state a (record (h.state a) { status = st }) }

  -- The value or the exception is stored, and then the status that says so.
  abbrev pub published : Heap V E → ℕ → Exn E ⊎ V → Heap V E
  published h a (inl e) = record h {
    state = update h.state a (record (h.state a) { status = exception; error = some e });
  }
  published h a (inr v) = record h {
    state = update h.state a (record (h.state a) { status = value; stored = some v });
  }

  -- `waiters.resume_all()`
  abbrev pub woken : Heap V E → ℕ → Heap V E
  woken h a = record h {
    state = update h.state a (record (h.state a) { waiters = [] });
    resumed = h.resumed ++ (h.state a).waiters;
  }

  -- What a call can store: any exception, or a value that the constructor makes.
  abbrev pub Makes : (V → E ⊎ V) → Exn E ⊎ V → Type 0
  Makes construct (inl e) = Unit {0}
  Makes construct (inr w) = (v : V) × (construct v ≡ inr w)

  -- `overwrite` says whether a promise that has a shared state may be the target of a move assignment.
  pub data Step (construct : V → E ⊎ V) (move : V → (E ⊎ V) × V) (overwrite : Bool)
      (o : Objects V E) : Objects V E → Type 0 where
    makes :
        (p : ℕ)
        → o.promise p ≡ none
        → Step construct move overwrite o (record o {
          heap = (make_promise o.heap).1;
          promise = update o.promise p (make_promise o.heap).0;
        })
    gets_future :
        (p f : ℕ) (x : Handle) (h : Heap V E)
        → get_future o.heap (o.promise p) ≡ ok (x, h)
        → Step construct move overwrite o (record o { heap = h; future = update o.future f x })
    sets_value :
        (p : ℕ) (v : V) (h : Heap V E)
        → set_value construct o.heap (o.promise p) v ≡ ok h
        → Step construct move overwrite o (record o { heap = h })
    sets_exception :
        (p : ℕ) (e : Exn E) (h : Heap V E)
        → set_exception o.heap (o.promise p) e ≡ ok h
        → Step construct move overwrite o (record o { heap = h })
    -- A call whose accesses other steps come between: the exchange of the status by `set_value`,
    -- `set_exception` or a destructor, the end of the transition, with what the call stores, and the
    -- wake-up of the waiters.
    exchanges :
        (p a : ℕ) (st : Status)
        → o.promise p ≡ some a
        → is_empty (o.heap.state a).status ≡ true
        → (st ≡ transition) ⊎ (st ≡ broken)
        → Step construct move overwrite o (record o { heap = exchanged o.heap a st })
    publishes :
        (a : ℕ) (x : Exn E ⊎ V)
        → Makes construct x
        → (o.heap.state a).status ≡ transition
        → Step construct move overwrite o (record o { heap = published o.heap a x })
    wakes :
        (a : ℕ)
        → ready (o.heap.state a).status ≡ true
        → Step construct move overwrite o (record o { heap = woken o.heap a })
    destroys :
        (p : ℕ)
        → Step construct move overwrite o
            (record o { heap = destroy o.heap (o.promise p); promise = update o.promise p none })
    assigns :
        (p q : ℕ)
        → p ≢ q
        → (overwrite ≡ true) ⊎ (o.promise p ≡ none)
        → Step construct move overwrite o (record o {
          promise =
              update
                (update o.promise p (move_assign (o.promise p) (o.promise q)).0)
                q
                (move_assign (o.promise p) (o.promise q)).1;
        })
    swaps :
        (p q : ℕ)
        → Step construct move overwrite o (record o {
          promise =
              update
                (update o.promise p (swap (o.promise p) (o.promise q)).0)
                q
                (swap (o.promise p) (o.promise q)).1;
        })
    waits :
        (i f : ℕ) (b : Bool) (h : Heap V E)
        → wait i o.heap (o.future f) ≡ ok (b, h)
        → Step construct move overwrite o (record o { heap = h })
    gets :
        (i f : ℕ)
        → Step construct move overwrite o (record o {
          heap = (get move i o.heap (o.future f)).1;
          future = update o.future f (get move i o.heap (o.future f)).2;
        })
    shares :
        (f g : ℕ) (x y : Handle)
        → share {E = E} (o.future f) ≡ ok (x, y)
        → Step construct move overwrite o (record o { future = update (update o.future g x) f y })

  pub data Reach (construct : V → E ⊎ V) (move : V → (E ⊎ V) × V) (overwrite : Bool)
      (o : Objects V E) : Objects V E → Type 0 where
    here : Reach construct move overwrite o o
    next :
        {s t : Objects V E}
        → Reach construct move overwrite o s
        → Step construct move overwrite s t
        → Reach construct move overwrite o t
