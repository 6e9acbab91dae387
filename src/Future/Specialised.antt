-- ===== src/Future/Specialised.antt =====
-- The specialisations of include/coopsync_tbb/future.hpp for `void` and for references. A state for
-- `void` stores no value; one for a reference stores a pointer to the object, here its address.
use std.Path.{fun_ext}
use coopsync_tbb.Base.{
  ℕ, ◌≡◌, refl, Option, none, some, [], inl, inr, if◌then◌else◌, Bool-cases, ◌==◌, update, ap,
}
use coopsync_tbb.Future.{
  no_state, broken_promise, Exn, future_error, Result, ok, throws, and_then, Status, value,
  exception, broken, empty, transition, is_empty, ready, SharedState, Heap, Got, suspended, got,
  threw, undefined, settle, exchange, set_value_at, wait_at, read_outcome, outcome,
}
use coopsync_tbb.Future.Handles.{
  Handle, ensure_valid, or_satisfied, after_get, get_shared, set_value,
}
use coopsync_tbb.Future.Laws.{Delivered, set_value-Delivered}

-- A state for `void` stands for one of the unit type that has its value when the status says so.
abbrev pub filled : Status → Option (Unit {0})
filled value = some tt
filled _ = none

module _ {E : Type 0} where
  -- `shared_state<void>::set_value`: the exchange leaves the final status.
  unfoldable pub set_void_at : Heap (Unit {0}) E → ℕ → Option (Heap (Unit {0}) E)
  set_void_at h a = exchange h a (λ s. record s { status = value })

  -- `promise<void>::set_value`
  unfoldable pub set_void : Heap (Unit {0}) E → Handle → Result E (Heap (Unit {0}) E)
  set_void h p = and_then (ensure_valid p) (λ a. or_satisfied (set_void_at h a))

  -- What `throw_if_exception_or_broken` throws, and nothing else is read.
  abbrev pub read_void : Status → Option (Exn E) → Got (Unit {0}) E
  read_void exception none = undefined
  read_void exception (some e) = threw e
  read_void broken e = threw (future_error broken_promise)
  read_void value e = got tt
  read_void empty e = got tt
  read_void transition e = got tt

  -- `shared_future<void>::get` for task `i`
  unfoldable pub get_shared_void :
      ℕ → Heap (Unit {0}) E → Handle → Got (Unit {0}) E × Heap (Unit {0}) E
  get_shared_void i h none = (threw (future_error no_state), h)
  get_shared_void i h (some a) =
      if ready (h.state a).status
      then (read_void (h.state a).status (h.state a).error, h)
      else (suspended, wait_at i h a)

  abbrev pub fill : SharedState (Unit {0}) E → SharedState (Unit {0}) E
  fill s = record s { stored = filled s.status }

  abbrev pub fill_heap : Heap (Unit {0}) E → Heap (Unit {0}) E
  fill_heap h = record h { state = λ a. fill (h.state a) }

  abbrev pub map_result : {A B : Type 0} → (A → B) → Result E A → Result E B
  map_result f (ok x) = ok (f x)
  map_result f (throws e) = throws e

  fill-update :
      (f : ℕ → SharedState (Unit {0}) E) (a b : ℕ) (x : SharedState (Unit {0}) E)
      → fill (update f a x b) ≡ update (λ c. fill (f c)) a (fill x) b
  fill-update f a b x = elim (Bool-cases (a == b)) [ inl e ↦ rw e refl | inr e ↦ rw e refl ]

  settle_same :
      (h : Heap (Unit {0}) E) (a : ℕ)
      → fill_heap (settle h a (λ s. record s { status = value }))
        ≡ settle (fill_heap h) a (λ s. record s { status = value; stored = some tt })
  settle_same h a =
      ap (λ f. record (settle h a (λ s. s)) { state = f })
        (fun_ext
          (λ b. fill-update h.state a b (record (h.state a) { status = value; waiters = [] })))

  read_same : (x : Option (Exn E)) → read_void exception x ≡ read_outcome exception none x
  read_same none = refl
  read_same (some y) = refl

  get_lem :
      (i : ℕ) (h : Heap (Unit {0}) E) (a : ℕ) (st : Status)
      → (h.state a).status ≡ st
      → (get_shared_void i h (some a)).0 ≡ (get_shared i (fill_heap h) (some a)).0
  unfolding get_shared_void get_shared outcome
  get_lem i h a value e = simp e refl
  get_lem i h a exception e = simp e (read_same (h.state a).error)
  get_lem i h a broken e = simp e refl
  get_lem i h a empty e = simp e refl
  get_lem i h a transition e = simp e refl

  set_same :
      (h : Heap (Unit {0}) E) (p : Handle)
      → map_result fill_heap (set_void h p) ≡ set_value (λ x. inr x) (fill_heap h) p tt
  unfolding set_void set_void_at set_value set_value_at
  set_same h none = refl
  set_same h (some a) = elim (Bool-cases (is_empty (h.state a).status)) [
    | inl free ↦ rw free (ap ok (settle_same h a))
    | inr full ↦ rw full refl
  ]

  get_same :
      (i : ℕ) (h : Heap (Unit {0}) E) (f : Handle)
      → (get_shared_void i h f).0 ≡ (get_shared i (fill_heap h) f).0
  unfolding get_shared_void get_shared
  get_same i h none = refl
  get_same i h (some a) = get_lem i h a (h.state a).status refl

  -- The specialisation for `void` is the template for the unit type: `set_value` ends in the same way
  -- and leaves states that stand for the same ones, and `get` returns or throws the same.
  pub void_as_unit :
      (i : ℕ) (h : Heap (Unit {0}) E) (p f : Handle)
      → (map_result fill_heap (set_void h p) ≡ set_value (λ x. inr x) (fill_heap h) p tt)
        × ((get_shared_void i h f).0 ≡ (get_shared i (fill_heap h) f).0)
  void_as_unit i h p f = (set_same h p, get_same i h f)

  -- `future<void>::get` for task `i`
  unfoldable pub get_void :
      ℕ → Heap (Unit {0}) E → Handle → Got (Unit {0}) E × Heap (Unit {0}) E × Handle
  unfolding get_shared_void
  get_void i h f = let (g, h') = get_shared_void i h f in (g, h', after_get g f)

-- A reference is the address of its object, and `std::addressof` does not throw.
module _ {E : Type 0} where
  -- `shared_state<T&>::set_value`
  unfoldable pub set_reference_at : Heap ℕ E → ℕ → ℕ → Option (Heap ℕ E)
  set_reference_at h a address =
      exchange h a (λ s. record s { status = value; stored = some address })

  -- `promise<T&>::set_value`
  unfoldable pub set_reference : Heap ℕ E → Handle → ℕ → Result E (Heap ℕ E)
  set_reference h p address =
      and_then (ensure_valid p) (λ a. or_satisfied (set_reference_at h a address))

  -- `shared_future<T&>::get` for task `i`: the address of the object.
  unfoldable pub get_shared_reference : ℕ → Heap ℕ E → Handle → Got ℕ E × Heap ℕ E
  unfolding outcome
  get_shared_reference i h none = (threw (future_error no_state), h)
  get_shared_reference i h (some a) =
      if ready (h.state a).status then (outcome (h.state a), h) else (suspended, wait_at i h a)

  -- `future<T&>::get` for task `i`
  unfoldable pub get_reference : ℕ → Heap ℕ E → Handle → Got ℕ E × Heap ℕ E × Handle
  unfolding get_shared_reference
  get_reference i h f = let (g, h') = get_shared_reference i h f in (g, h', after_get g f)

  -- A reference that is set is the one that `get` returns.
  set_reference-Delivered :
      (h : Heap ℕ E) (a address : ℕ)
      → (h.state a).status ≡ empty
      → (h' : Heap ℕ E) × (set_reference h (some a) address ≡ ok h')
        × Delivered h h' a (got address)
  unfolding set_reference set_reference_at set_value set_value_at
  set_reference-Delivered h a address e = set_value-Delivered (λ x. inr x) h a address e
