-- ===== src/Future/Objects/Changes.antt =====
-- What the operations of promises and futures do to the shared states.
use coopsync_tbb.Base.{
  ℕ, ◌≡◌, ◌≢◌, ◌⊎◌, inl, inr, Bool-cases, refl, subst, ap, ◌∙◌, Bool, true, false, Option, none,
  some, [], ◌∷◌, ◌++◌, arith, update, ◌==◌,
}
use coopsync_tbb.Future.{
  Exn, user, ok, Status, empty, value, exception, broken, transition, is_empty, ready, SharedState,
  Heap, Got, suspended, got, threw, undefined, read_outcome, new_state, make_shared, settle,
  exchange, set_exception_at, break_promise, set_value_at, wait_at, outcome,
}
use coopsync_tbb.Future.Handles.{
  Handle, or_satisfied, wait, get, take, move_out, make_promise, get_future, set_value,
  set_exception, destroy,
}
use coopsync_tbb.Future.Objects.{exchanged, published, woken}

ready_not_transition : (s : Status) → ready s ≡ true → s ≢ transition
ready_not_transition transition r e = absurd (ground arith)
ready_not_transition empty r e = ground arith
ready_not_transition value r e = ground arith
ready_not_transition exception r e = ground arith
ready_not_transition broken r e = ground arith

ready_not_empty : (s : Status) → ready s ≡ true → is_empty s ≡ false
ready_not_empty empty r = absurd (ground arith)
ready_not_empty transition r = refl
ready_not_empty value r = refl
ready_not_empty exception r = refl
ready_not_empty broken r = refl

module _ {V E : Type 0} where
  -- A shared state that is ready has what its status says.
  pub record Sound (s : SharedState V E) : Type 0 where
    pub defined : ready s.status ≡ true → outcome s ≢ undefined

  -- One shared state of the heap changes, if any: it stays as empty or ready as it is, or is settled
  -- by a promise that refers to it.
  pub record Change (h h' : Heap V E) (p : Handle) : Type 0 where
    pub sound : (a : ℕ) → Sound (h.state a) → Sound (h'.state a)
    pub settles :
        (a : ℕ)
        → (is_empty (h'.state a).status ≡ is_empty (h.state a).status)
          ⊎ ((p ≡ some a) × (is_empty (h'.state a).status ≡ false))
    pub size : h'.size ≡ h.size

  pub no-Change : (h : Heap V E) (p : Handle) → Change h h p
  no-Change h p = record { sound = λ a s. s; settles = λ a. inl refl; size = refl }

  pub update-Sound :
      (f : ℕ → SharedState V E) (a : ℕ) (x : SharedState V E) (b : ℕ)
      → Sound x
      → Sound (f b)
      → Sound (update f a x b)
  update-Sound f a x b sx sb = elim (Bool-cases (a == b)) [
    | inl here' ↦ rw here' sx
    | inr other ↦ rw other sb
  ]

  settle-Change :
      (h : Heap V E) (a : ℕ) (f : SharedState V E → SharedState V E)
      → ready (f (h.state a)).status ≡ true
      → outcome (f (h.state a)) ≢ undefined
      → Change h (settle h a f) (some a)
  unfolding outcome
  settle-Change h a f r d = record {
    sound = λ b s.
        update-Sound h.state a (record (f (h.state a)) { waiters = [] }) b
          (record { defined = λ _. d }) s;
    settles = λ b. elim (Bool-cases (a == b)) [
      | inl here' ↦ inr (ground arith, rw here' (ready_not_empty (f (h.state a)).status r))
      | inr other ↦ inl (rw other refl)
    ];
    size = refl;
  }

  exchange-Change :
      (h h' : Heap V E) (a : ℕ) (f : SharedState V E → SharedState V E)
      → ready (f (h.state a)).status ≡ true
      → outcome (f (h.state a)) ≢ undefined
      → or_satisfied (exchange h a f) ≡ ok h'
      → Change h h' (some a)
  exchange-Change h h' a f r d e = elim (Bool-cases (is_empty (h.state a).status)) [
    | inl free ↦ subst (λ k. Change h k (some a)) (ground arith) (settle-Change h a f r d)
    | inr full ↦ absurd (ground arith)
  ]

  set_value_at-Change :
      (h h' : Heap V E) (a : ℕ) (r : E ⊎ V)
      → or_satisfied (set_value_at h a r) ≡ ok h'
      → Change h h' (some a)
  unfolding set_value_at outcome
  set_value_at-Change h h' a (inl x) e =
      exchange-Change h h' a (λ s. record s { status = exception; error = some (user x) }) refl
        (λ u. ground arith) e
  set_value_at-Change h h' a (inr v) e =
      exchange-Change h h' a (λ s. record s { status = value; stored = some v }) refl
        (λ u. ground arith) e

  pub set_value-Change :
      (construct : V → E ⊎ V) (h h' : Heap V E) (p : Handle) (v : V)
      → set_value construct h p v ≡ ok h'
      → Change h h' p
  unfolding set_value
  set_value-Change construct h h' none v e = absurd (ground arith)
  set_value-Change construct h h' (some a) v e = set_value_at-Change h h' a (construct v) e

  pub set_exception-Change :
      (h h' : Heap V E) (p : Handle) (x : Exn E) → set_exception h p x ≡ ok h' → Change h h' p
  unfolding set_exception set_exception_at outcome
  set_exception-Change h h' none x e = absurd (ground arith)
  set_exception-Change h h' (some a) x e =
      exchange-Change h h' a (λ s. record s { status = exception; error = some x }) refl
        (λ u. ground arith) e

  pub destroy-Change : (h : Heap V E) (p : Handle) → Change h (destroy h p) p
  unfolding destroy break_promise outcome
  destroy-Change h none = no-Change h none
  destroy-Change h (some a) = elim (Bool-cases (is_empty (h.state a).status)) [
    | inl free ↦
        subst (λ k. Change h k (some a)) (ground arith)
          (settle-Change h a (λ s. record s { status = broken }) refl (λ u. ground arith))
    | inr full ↦ subst (λ k. Change h k (some a)) (ground arith) (no-Change h (some a))
  ]

  touch-Change :
      (h : Heap V E) (a : ℕ) (x : SharedState V E) (p : Handle)
      → is_empty x.status ≡ is_empty (h.state a).status
      → (Sound (h.state a) → Sound x)
      → Change h (record h { state = update h.state a x }) p
  touch-Change h a x p e k = record {
    sound = λ b s. elim (Bool-cases (a == b)) [
      | inl here' ↦
          let same : b ≡ a = ground arith in rw here' (k (subst (λ c. Sound (h.state c)) same s))
      | inr other ↦ rw other s
    ];
    settles = λ b. elim (Bool-cases (a == b)) [
      | inl here' ↦ inl (ground arith)
      | inr other ↦ inl (rw other refl)
    ];
    size = refl;
  }

  wait_at-Change : (i : ℕ) (h : Heap V E) (a : ℕ) (p : Handle) → Change h (wait_at i h a) p
  unfolding wait_at
  wait_at-Change i h a p = elim (Bool-cases (ready (h.state a).status)) [
    | inl yes' ↦ rw yes' (no-Change h p)
    | inr no' ↦ rw no' (
        touch-Change h a (record (h.state a) { waiters = (h.state a).waiters ++ i ∷ [] }) p refl
          (λ s. record { defined = λ r. absurd (ground arith) }))
  ]

  pub wait-Change :
      (i : ℕ) (h h' : Heap V E) (f : Handle) (b : Bool) (p : Handle)
      → wait i h f ≡ ok (b, h')
      → Change h h' p
  unfolding wait
  wait-Change i h h' none b p e = absurd (ground arith)
  wait-Change i h h' (some a) b p e =
      subst (λ k. Change h k p) (ground arith) (wait_at-Change i h a p)

  pub exchanged-Change :
      (h : Heap V E) (a : ℕ) (st : Status) (p : Handle)
      → p ≡ some a
      → (st ≡ transition) ⊎ (st ≡ broken)
      → Change h (exchanged h a st) p
  unfolding outcome
  exchanged-Change h a st p at_a which = record {
    sound = λ b s.
        update-Sound h.state a (record (h.state a) { status = st }) b
          (record {
            defined = λ r u. elim which [
              | inl going ↦ absurd (ground arith)
              | inr over ↦ absurd (ground arith)
            ];
          })
          s;
    settles = λ b. elim (Bool-cases (a == b)) [
      | inl here' ↦ inr (
        at_a ∙ ap some (ground arith),
        elim which [ inl going ↦ rw (here', going) refl | inr over ↦ rw (here', over) refl ],
      )
      | inr other ↦ inl (rw other refl)
    ];
    size = refl;
  }

  pub published-Change :
      (h : Heap V E) (a : ℕ) (x : Exn E ⊎ V) (p : Handle)
      → (h.state a).status ≡ transition
      → Change h (published h a x) p
  unfolding outcome
  published-Change h a (inl e) p going =
      touch-Change h a (record (h.state a) { status = exception; error = some e }) p (ground arith)
        (λ s. record { defined = λ r u. ground arith })
  published-Change h a (inr v) p going =
      touch-Change h a (record (h.state a) { status = value; stored = some v }) p (ground arith)
        (λ s. record { defined = λ r u. ground arith })

  pub woken-Change : (h : Heap V E) (a : ℕ) (p : Handle) → Change h (woken h a) p
  unfolding outcome
  woken-Change h a p =
      let c =
        touch-Change h a (record (h.state a) { waiters = [] }) p refl
          (λ s. record { defined = s.defined }) in
      record { sound = c.sound; settles = c.settles; size = refl }

  refilled :
      (st : Status) (v : Option V) (x : Option (Exn E)) (left : V)
      → read_outcome st v x ≢ undefined
      → read_outcome st (some left) x ≢ undefined
  refilled value v x left d u = ground arith
  refilled exception v x left d u = d u
  refilled broken v x left d u = d u
  refilled empty v x left d u = d u
  refilled transition v x left d u = d u

  move_out-Change :
      (h : Heap V E) (a : ℕ) (p : Handle) (r : (E ⊎ V) × V) → Change h (move_out h a r).1 p
  unfolding outcome
  move_out-Change h a p (inl e, left) =
      touch-Change h a (record (h.state a) { stored = some left }) p refl
        (λ s. record { defined = λ r. refilled _ _ _ left (s.defined r) })
  move_out-Change h a p (inr v, left) =
      touch-Change h a (record (h.state a) { stored = some left }) p refl
        (λ s. record { defined = λ r. refilled _ _ _ left (s.defined r) })

  -- What `get` of `future` leaves of a state that is ready.
  take-Change :
      (move : V → (E ⊎ V) × V) (h : Heap V E) (a : ℕ) (p : Handle) (g : Got V E)
      → Change h (take move h a g).1 p
  take-Change move h a p (got v) = move_out-Change h a p (move v)
  take-Change move h a p (threw x) = no-Change h p
  take-Change move h a p suspended = no-Change h p
  take-Change move h a p undefined = no-Change h p

  pub get-Change :
      (move : V → (E ⊎ V) × V) (i : ℕ) (h : Heap V E) (f p : Handle) → Change h (get move i h f).1 p
  unfolding get
  get-Change move i h none p = no-Change h p
  get-Change move i h (some a) p = elim (Bool-cases (ready (h.state a).status)) [
    | inl yes' ↦ rw yes' (take-Change move h a p (outcome (h.state a)))
    | inr no' ↦ rw no' (wait_at-Change i h a p)
  ]

  pub get_future-Change :
      (h h' : Heap V E) (p x : Handle) → get_future h p ≡ ok (x, h') → Change h h' p
  unfolding get_future outcome
  get_future-Change h h' none x e = absurd (ground arith)
  get_future-Change h h' (some a) x e = elim (Bool-cases (h.state a).future_obtained) [
    | inl yes' ↦ absurd (ground arith)
    | inr no' ↦
        subst (λ k. Change h k (some a)) (ground arith)
          (touch-Change h a (record (h.state a) { future_obtained = true }) (some a) refl
            (λ s. record { defined = s.defined }))
  ]

  pub make_promise-Sound :
      (h : Heap V E) (b : ℕ) → Sound (h.state b) → Sound ((make_promise h).1.state b)
  unfolding make_promise make_shared outcome
  make_promise-Sound h b s =
      update-Sound h.state h.size new_state b (record { defined = λ r. absurd (ground arith) }) s
