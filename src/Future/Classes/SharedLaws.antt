-- ===== src/Future/Classes/SharedLaws.antt =====
-- The contract of `shared_future` and its specialisations in include/coopsync_tbb/future.hpp.
use coopsync_tbb.Base.{ℕ, ◌≡◌, refl, true, none, some, arith}
use coopsync_tbb.Future.{ok, ready, Heap, Got, outcome}
use coopsync_tbb.Future.Handles.{
  Handle, valid, try_wait, wait, get_shared, move_construct, move_assign,
}
use coopsync_tbb.Future.Specialised.{get_shared_void, read_void, get_shared_reference}
use coopsync_tbb.Future.Classes.{
  SharedFutureClass, copy_construct, copy_assign, shared_future, shared_future_void,
  shared_future_reference,
}

module _ {V E : Type 0} where
  -- What a class of shared futures promises.
  pub record Contract (c : SharedFutureClass V E) : Type 0 where
    -- A copy refers to the same state, and so does the original.
    pub copied : (f : Handle) → c.copy f ≡ (f, f)
    pub copy_assigned : (f other : Handle) → c.copy_assign f other ≡ (other, other)
    -- Once the state is settled, each task that reads it gets the same, and changes nothing.
    pub repeated :
        (i j : ℕ) (h : Heap V E) (f : Handle)
        → c.tries h f ≡ ok true
        → (c.gets j (c.gets i h f).1 f ≡ c.gets i h f) × ((c.gets i h f).1 ≡ h)

  abbrev derived : (ℕ → Heap V E → Handle → Got V E × Heap V E) → SharedFutureClass V E
  derived read = record {
    construct = none;
    from_state = λ a. some a;
    copy = copy_construct;
    copy_assign = copy_assign;
    move = move_construct;
    assign = move_assign;
    is_valid = valid;
    tries = try_wait;
    waits = wait;
    gets = read;
  }

  module _ (read : ℕ → Heap V E → Handle → Got V E × Heap V E) (result : Heap V E → ℕ → Got V E)
      (settled : (i : ℕ) (h : Heap V E) (a : ℕ)
        → ready (h.state a).status ≡ true
        → read i h (some a) ≡ (result h a, h)) where
    repeated_lem :
        (i j : ℕ) (h : Heap V E) (f : Handle)
        → try_wait h f ≡ ok true
        → (read j (read i h f).1 f ≡ read i h f) × ((read i h f).1 ≡ h)
    unfolding try_wait
    repeated_lem i j h none e = absurd (cc)
    repeated_lem i j h (some a) e =
        let r : ready (h.state a).status ≡ true = ground arith in
        rw (settled i h a r) (settled j h a r, refl)

    derived-Contract : Contract (derived read)
    derived-Contract = record {
      copied = λ f. refl;
      copy_assigned = λ f other. refl;
      repeated = repeated_lem;
    }

-- `shared_future` and its specialisations for `void` and for references keep one contract: copies refer
-- to one state, and once this is settled, every task gets the same from it, any number of times.
pub shared_futures-Contract :
    {V E : Type 0}
    → Contract {V = V} {E = E} shared_future
      × Contract {E = E} shared_future_void
      × Contract {E = E} shared_future_reference
unfolding get_shared get_shared_void get_shared_reference
shared_futures-Contract = (
  derived-Contract get_shared (λ h a. outcome (h.state a)) (λ i h a r. rw r refl),
  derived-Contract get_shared_void (λ h a. read_void (h.state a).status (h.state a).error)
      (λ i h a r. rw r refl),
  derived-Contract get_shared_reference (λ h a. outcome (h.state a)) (λ i h a r. rw r refl),
)
