-- ===== src/Future/Classes/PromiseLaws.antt =====
-- The contract of `promise` and its specialisations in include/coopsync_tbb/future.hpp.
use coopsync_tbb.Base.{
  ℕ, ◌≡◌, refl, sym, ap, subst, ◌∙◌, Bool-cases, inl, inr, true, false, none, some, arith, ◌⊎◌,
  update,
}
use coopsync_tbb.Future.{
  no_state, promise_already_satisfied, future_already_retrieved, Exn, future_error, Result, ok,
  throws, is_empty, Heap, set_exception_at, set_value_at,
}
use coopsync_tbb.Future.Handles.{Handle, get_future, set_value, set_exception, destroy, swap}
use coopsync_tbb.Future.Specialised.{set_void, set_void_at, set_reference, set_reference_at}
use coopsync_tbb.Future.Classes.{PromiseClass, promise, promise_void, promise_reference}

module _ {V E : Type 0} where
  -- What a class of promises promises.
  pub record Contract (c : PromiseClass V E) : Type 0 where
    -- The members of a promise without a state throw, and its destructor does nothing.
    pub unbound :
        (h : Heap V E) (v : V) (e : Exn E)
        → (c.obtains h none ≡ throws (future_error no_state))
          × (c.sets h none v ≡ throws (future_error no_state))
          × (c.fails h none e ≡ throws (future_error no_state))
          × (c.destructs h none ≡ h)
    -- A state that is not empty is not set again.
    pub satisfied :
        (h : Heap V E) (a : ℕ) (v : V) (e : Exn E)
        → is_empty (h.state a).status ≡ false
        → (c.sets h (some a) v ≡ throws (future_error promise_already_satisfied))
          × (c.fails h (some a) e ≡ throws (future_error promise_already_satisfied))
    -- A promise gives out one future, of its state.
    pub retrieved :
        (h : Heap V E) (a : ℕ) {f : Handle} {h' : Heap V E}
        → c.obtains h (some a) ≡ ok (f, h')
        → (f ≡ some a) × (c.obtains h' (some a) ≡ throws (future_error future_already_retrieved))
    pub swapped : (p other : Handle) → c.swaps p other ≡ (other, p)

  abbrev result_or : Handle × Heap V E → Result E (Handle × Heap V E) → Handle × Heap V E
  result_or d (ok x) = x
  result_or d (throws e) = d

  abbrev marked : Heap V E → ℕ → Heap V E
  marked h a = record h { state = update h.state a (record (h.state a) { future_obtained = true }) }

  obtained_twice :
      (h : Heap V E) (a : ℕ)
      → get_future (marked h a) (some a) ≡ throws (future_error future_already_retrieved)
  unfolding get_future
  obtained_twice h a = ground arith

  old_throws :
      (h : Heap V E) (a : ℕ) {f : Handle} {h' : Heap V E}
      → (h.state a).future_obtained ≡ true
      → get_future h (some a) ≡ ok (f, h')
      → ⊥
  unfolding get_future
  old_throws h a old e = ground arith

  retrieved_lem :
      (h : Heap V E) (a : ℕ) {f : Handle} {h' : Heap V E}
      → get_future h (some a) ≡ ok (f, h')
      → (f ≡ some a) × (get_future h' (some a) ≡ throws (future_error future_already_retrieved))
  retrieved_lem h a {f} {h'} e = elim (Bool-cases (h.state a).future_obtained) [
    | inl old ↦ absurd (old_throws h a old e)
    | inr new ↦
        let made : get_future h (some a) ≡ ok (some a, marked h a) =
          unfold get_future in rw new refl in
        let same : ◌≡◌ {A = Handle × Heap V E} (some a, marked h a) (f, h') =
          ap (result_or (f, h')) (sym made ∙ e) in
        (
          sym (ap (λ r. r.0) same),
          subst (λ z. get_future z (some a) ≡ throws (future_error future_already_retrieved))
              (ap (λ r. r.1) same) (obtained_twice h a),
        )
  ]

  abbrev derived : (Heap V E → Handle → V → Result E (Heap V E)) → PromiseClass V E
  derived set = record (promise (λ v. inr v)) { sets = set }

  module _ (set : Heap V E → Handle → V → Result E (Heap V E))
      (unset : (h : Heap V E) (v : V) → set h none v ≡ throws (future_error no_state))
      (full : (h : Heap V E) (a : ℕ) (v : V)
        → is_empty (h.state a).status ≡ false
        → set h (some a) v ≡ throws (future_error promise_already_satisfied)) where
    derived-Contract : Contract (derived set)
    unfolding get_future set_exception set_exception_at destroy swap
    derived-Contract = record {
      unbound = λ h v e. (refl, unset h v, refl, refl);
      satisfied = λ h a v e s. (full h a v s, rw s refl);
      retrieved = retrieved_lem;
      swapped = λ p other. refl;
    }

  full_lem :
      (build : V → E ⊎ V) (h : Heap V E) (a : ℕ) (r : E ⊎ V)
      → is_empty (h.state a).status ≡ false
      → set_value_at h a r ≡ none
  unfolding set_value_at
  full_lem build h a (inl e) s = rw s refl
  full_lem build h a (inr v) s = rw s refl

-- `promise` and its specialisations for `void` and for references keep one contract: the members of a
-- promise without a state throw, a state is set once, a future is given out once, and a swap exchanges
-- the states.
pub promises-Contract :
    {V E : Type 0} (build : V → E ⊎ V)
    → Contract {V = V} {E = E} (promise build)
      × Contract {E = E} promise_void
      × Contract {E = E} promise_reference
unfolding set_value set_void set_void_at set_reference set_reference_at
promises-Contract build = (
  derived-Contract (set_value build) (λ h v. refl)
      (λ h a v s. rw (full_lem build h a (build v) s) refl),
  derived-Contract (λ h p u. set_void h p) (λ h v. refl) (λ h a v s. rw s refl),
  derived-Contract set_reference (λ h v. refl) (λ h a v s. rw s refl),
)
