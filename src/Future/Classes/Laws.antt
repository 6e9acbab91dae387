-- ===== src/Future/Classes/Laws.antt =====
-- The contract that the classes of include/coopsync_tbb/future.hpp and their specialisations share.
use coopsync_tbb.Base.{
  ℕ, ◌≡◌, ◌≢◌, ◌⊎◌, inl, inr, refl, Bool-cases, Bool, if◌then◌else◌, true, false, Option, none,
  some, arith, ◌==◌, update,
}
use coopsync_tbb.Future.{
  no_state, Exn, future_error, ok, throws, ready, Heap, Got, suspended, got, threw, undefined,
  Status, empty, value, exception, broken, transition, wait_at, outcome, read_outcome,
}
use coopsync_tbb.Future.Handles.{
  Handle, valid, share, try_wait, wait, get_shared, get, take, move_out, after_get, move_construct,
  move_assign,
}
use coopsync_tbb.Future.Specialised.{
  get_shared_void, get_void, read_void, get_shared_reference, get_reference,
}
use coopsync_tbb.Future.Classes.{FutureClass, future, future_void, future_reference}

module _ {V E : Type 0} where
  -- The same states with the same status and waiters, and nobody is resumed.
  abbrev pub Calm : Heap V E → Heap V E → Type 0
  Calm h h' =
      ((a : ℕ)
        → ((h'.state a).status ≡ (h.state a).status) × ((h'.state a).waiters ≡ (h.state a).waiters))
      × (h'.resumed ≡ h.resumed)
      × (h'.size ≡ h.size)

  -- What a class of futures promises.
  pub record Contract (c : FutureClass V E) : Type 0 where
    -- A future that is made without a state, or moved from, is not valid.
    pub fresh : c.is_valid c.construct ≡ false
    pub moved : (f : Handle) → ((c.move f).0 ≡ f) × (c.is_valid (c.move f).1 ≡ false)
    -- The members of a future that is not valid throw.
    pub unbound :
        (i : ℕ) (h : Heap V E) (f : Handle)
        → c.is_valid f ≡ false
        → ((c.gets i h f).0 ≡ threw (future_error no_state))
          × (c.tries h f ≡ throws (future_error no_state))
          × (c.waits i h f ≡ throws (future_error no_state))
          × (c.shares f ≡ throws (future_error no_state))
    -- A shared future takes the state over.
    pub shared :
        (f : Handle)
        → c.is_valid f ≡ true
        → (f' : Handle) × (c.shares f ≡ ok (f, f')) × (c.is_valid f' ≡ false)
    -- Where `try_wait` returns true, nobody waits, and at most what is stored changes.
    pub settled :
        (i : ℕ) (h : Heap V E) (f : Handle)
        → c.tries h f ≡ ok true
        → ((c.gets i h f).0 ≢ suspended) × Calm h (c.gets i h f).1 × (c.waits i h f ≡ ok (true, h))
    -- A future is no longer valid after it has given its value, and stays as it is after an exception.
    pub consumed :
        (i : ℕ) (h : Heap V E) (f : Handle) (v : V)
        → (c.gets i h f).0 ≡ got v
        → c.is_valid (c.gets i h f).2 ≡ false
    pub kept :
        (i : ℕ) (h : Heap V E) (f : Handle) (e : Exn E)
        → (c.gets i h f).0 ≡ threw e
        → (c.gets i h f).2 ≡ f

  after_got : (g : Got V E) (f : Handle) (v : V) → g ≡ got v → valid (after_get g f) ≡ false
  after_got g f v e = rw e refl

  after_threw : (g : Got V E) (f : Handle) (e : Exn E) → g ≡ threw e → after_get g f ≡ f
  after_threw g f e h = rw h refl

  -- A class whose `get` reads the state by `read`, and is reset after a value.
  abbrev derived : (ℕ → Heap V E → Handle → Got V E × Heap V E) → FutureClass V E
  derived read = record {
    construct = none;
    from_state = λ a. some a;
    move = move_construct;
    assign = move_assign;
    is_valid = valid;
    tries = try_wait;
    waits = wait;
    gets = λ i h f. ((read i h f).0, (read i h f).1, after_get (read i h f).0 f);
    shares = share;
  }

  module _ (read : ℕ → Heap V E → Handle → Got V E × Heap V E)
      (empty' : (i : ℕ) (h : Heap V E) → (read i h none).0 ≡ threw (future_error no_state))
      (ready' : (i : ℕ) (h : Heap V E) (a : ℕ)
        → ready (h.state a).status ≡ true
        → ((read i h (some a)).0 ≢ suspended) × ((read i h (some a)).1 ≡ h)) where
    unbound_lem :
        (i : ℕ) (h : Heap V E) (f : Handle)
        → valid f ≡ false
        → ((read i h f).0 ≡ threw (future_error no_state))
          × (try_wait h f ≡ throws (future_error no_state))
          × (wait i h f ≡ throws (future_error no_state))
          × (share {E = E} f ≡ throws (future_error no_state))
    unfolding try_wait wait share
    unbound_lem i h none e = (empty' i h, refl, refl, refl)
    unbound_lem i h (some a) e = absurd (ground arith)

    shared_lem :
        (f : Handle)
        → valid f ≡ true
        → (f' : Handle) × (share {E = E} f ≡ ok (f, f')) × (valid f' ≡ false)
    unfolding share
    shared_lem none e = absurd (ground arith)
    shared_lem (some a) e = (none, refl, refl)

    settled_lem :
        (i : ℕ) (h : Heap V E) (f : Handle)
        → try_wait h f ≡ ok true
        → ((read i h f).0 ≢ suspended) × ((read i h f).1 ≡ h) × (wait i h f ≡ ok (true, h))
    unfolding try_wait wait wait_at
    settled_lem i h none e = absurd (cc)
    settled_lem i h (some a) e =
        let r : ready (h.state a).status ≡ true = ground arith in
        let done = ready' i h a r in (done.0, done.1, rw r refl)

    derived-Contract : Contract (derived read)
    unfolding move_construct
    derived-Contract = record {
      fresh = refl;
      moved = λ f. (refl, refl);
      unbound = unbound_lem;
      shared = shared_lem;
      settled = λ i h f e.
          let done = settled_lem i h f e in
          (done.0, (λ a. rw (done.1) (refl, refl), rw (done.1) refl, rw (done.1) refl), done.2);
      consumed = λ i h f v e. after_got (read i h f).0 f v e;
      kept = λ i h f e t. after_threw (read i h f).0 f e t;
    }

module _ {V E : Type 0} where
  outcome_settled :
      (st : Status) (v : Option V) (e : Option (Exn E)) → read_outcome st v e ≢ suspended
  outcome_settled exception v none h = cc
  outcome_settled exception v (some e) h = cc
  outcome_settled broken v e h = cc
  outcome_settled value none e h = cc
  outcome_settled value (some v) e h = cc
  outcome_settled empty v e h = cc
  outcome_settled transition v e h = cc

  moved_calm :
      (h : Heap V E) (a : ℕ) (x : V)
      → Calm h (record h { state = update h.state a (record (h.state a) { stored = some x }) })
  moved_calm h a x = (
    λ b. elim (Bool-cases (a == b)) [
      | inl here' ↦ let same : b ≡ a = ground arith in rw here' (ground arith, ground arith)
      | inr other ↦ rw other (refl, refl)
    ],
    refl,
    refl,
  )

  -- What `get` of `future` does with a state that is ready.
  module _ (move : V → (E ⊎ V) × V) (h : Heap V E) (a : ℕ) where
    move_out_settled :
        (r : (E ⊎ V) × V) → ((move_out h a r).0 ≢ suspended) × Calm h (move_out h a r).1
    move_out_settled (inl e, x) = (λ s. cc, moved_calm h a x)
    move_out_settled (inr v, x) = (λ s. cc, moved_calm h a x)

    take_settled :
        (g : Got V E)
        → g ≢ suspended
        → ((take move h a g).0 ≢ suspended) × Calm h (take move h a g).1
    take_settled (got v) ne = move_out_settled (move v)
    take_settled (threw e) ne = (ne, (λ b. (refl, refl), refl, refl))
    take_settled undefined ne = (ne, (λ b. (refl, refl), refl, refl))
    take_settled suspended ne = absurd (ne refl)

    move_out_consumed :
        (r : (E ⊎ V) × V) (v : V) → (move_out h a r).0 ≡ got v → valid (move_out h a r).2 ≡ false
    move_out_consumed (inl e, x) v g = absurd (cc)
    move_out_consumed (inr w, x) v g = refl

    take_consumed :
        (g : Got V E) (v : V) → (take move h a g).0 ≡ got v → valid (take move h a g).2 ≡ false
    take_consumed (got w) v e = move_out_consumed (move w) v e
    take_consumed (threw x) v e = absurd (cc)
    take_consumed undefined v e = absurd (cc)
    take_consumed suspended v e = absurd (cc)

    move_out_kept :
        (r : (E ⊎ V) × V) (e : Exn E) → (move_out h a r).0 ≡ threw e → (move_out h a r).2 ≡ some a
    move_out_kept (inl x, y) e g = refl
    move_out_kept (inr w, y) e g = absurd (cc)

    take_kept :
        (g : Got V E) (e : Exn E) → (take move h a g).0 ≡ threw e → (take move h a g).2 ≡ some a
    take_kept (got w) e t = move_out_kept (move w) e t
    take_kept (threw x) e t = refl
    take_kept undefined e t = refl
    take_kept suspended e t = refl

  module _ (move : V → (E ⊎ V) × V) where
    module _ (h : Heap V E) (a : ℕ) (g : Got V E) (h' : Heap V E) where
      if_consumed :
          (b : Bool) (v : V)
          → (if b then take move h a g else (suspended, h', some a)).0 ≡ got v
          → valid (if b then take move h a g else (suspended, h', some a)).2 ≡ false
      if_consumed true v e = take_consumed move h a g v e
      if_consumed false v e = absurd (cc)

      if_kept :
          (b : Bool) (x : Exn E)
          → (if b then take move h a g else (suspended, h', some a)).0 ≡ threw x
          → (if b then take move h a g else (suspended, h', some a)).2 ≡ some a
      if_kept true x e = take_kept move h a g x e
      if_kept false x e = refl

    get_settled :
        (i : ℕ) (h : Heap V E) (f : Handle)
        → try_wait h f ≡ ok true
        → ((get move i h f).0 ≢ suspended) × Calm h (get move i h f).1 × (wait i h f ≡ ok (true, h))
    unfolding try_wait wait wait_at get outcome
    get_settled i h none e = absurd (cc)
    get_settled i h (some a) e =
        let r : ready (h.state a).status ≡ true = ground arith in
        let done =
          take_settled move h a
            (read_outcome (h.state a).status (h.state a).stored (h.state a).error)
            (outcome_settled (h.state a).status (h.state a).stored (h.state a).error) in
        rw r (done.0, done.1, refl)

    get_consumed :
        (i : ℕ) (h : Heap V E) (f : Handle) (v : V)
        → (get move i h f).0 ≡ got v
        → valid (get move i h f).2 ≡ false
    unfolding get
    get_consumed i h none v e = absurd (cc)
    get_consumed i h (some a) v e =
        if_consumed h a (outcome (h.state a)) (wait_at i h a) (ready (h.state a).status) v e

    get_kept :
        (i : ℕ) (h : Heap V E) (f : Handle) (x : Exn E)
        → (get move i h f).0 ≡ threw x
        → (get move i h f).2 ≡ f
    unfolding get
    get_kept i h none x e = refl
    get_kept i h (some a) x e =
        if_kept h a (outcome (h.state a)) (wait_at i h a) (ready (h.state a).status) x e

    unbound_get :
        (i : ℕ) (h : Heap V E) (f : Handle)
        → valid f ≡ false
        → (get move i h f).0 ≡ threw (future_error no_state)
    unfolding get
    unbound_get i h none e = refl
    unbound_get i h (some a) e = absurd (ground arith)

    future-Contract : Contract {V = V} {E = E} (future move)
    unfolding move_construct get get_shared outcome
    future-Contract = record {
      fresh = refl;
      moved = λ f. (refl, refl);
      unbound = λ i h f e.
          let lem =
            unbound_lem {V = V} {E = E} get_shared (λ i' h'. refl)
              (λ i' h' a r. rw r (outcome_settled (h'.state a).status _ _, refl)) i h f e in
          (unbound_get i h f e, lem.1, lem.2, lem.3);
      shared =
          shared_lem {V = V} {E = E} get_shared (λ i' h'. refl)
            (λ i' h' a r. rw r (outcome_settled (h'.state a).status _ _, refl));
      settled = get_settled;
      consumed = get_consumed;
      kept = get_kept;
    }

module _ {E : Type 0} where
  void_settled : (st : Status) (e : Option (Exn E)) → read_void st e ≢ suspended
  void_settled exception none h = cc
  void_settled exception (some e) h = cc
  void_settled broken e h = cc
  void_settled value e h = cc
  void_settled empty e h = cc
  void_settled transition e h = cc

  future_void-Contract : Contract {E = E} future_void
  unfolding get_void get_shared_void
  future_void-Contract =
      derived-Contract get_shared_void (λ i h. refl)
        (λ i h a r. rw r (void_settled (h.state a).status _, refl))

  future_reference-Contract : Contract {E = E} future_reference
  unfolding get_reference get_shared_reference outcome
  future_reference-Contract =
      derived-Contract get_shared_reference (λ i h. refl)
        (λ i h a r. rw r (outcome_settled (h.state a).status _ _, refl))

-- `future` and its specialisations for `void` and for references keep one contract: the members of a
-- future without a state throw, `share` and a move take the state, a settled state is read without
-- waiting and with no change but to what it stores, and `get` resets the future where it returns a value, and leaves it as
-- it is where it throws.
pub futures-Contract :
    {V E : Type 0} (move : V → (E ⊎ V) × V)
    → Contract {V = V} {E = E} (future move)
      × Contract {E = E} future_void
      × Contract {E = E} future_reference
futures-Contract move = (future-Contract move, future_void-Contract, future_reference-Contract)
