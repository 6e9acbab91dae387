-- ===== src/Future/Laws.antt =====
-- What reaches a future from a promise or a task.
use coopsync_tbb.Base.{
  ℕ, ◌≡◌, ◌≢◌, refl, sym, ap, subst, Bool-cases, true, false, Option, none, some, [], ◌++◌, ◌⊎◌,
  inl, inr, arith, ◌==◌,
}
use coopsync_tbb.Future.{
  promise_already_satisfied, broken_promise, Exn, future_error, user, ok, throws, empty, value,
  exception, broken, is_empty, ready, SharedState, Heap, Got, got, threw, settle, exchange,
  set_exception_at, break_promise, set_value_at, outcome,
}
use coopsync_tbb.Future.Handles.{
  Handle, or_satisfied, get_shared, get, take, set_value, set_exception, destroy,
}
use coopsync_tbb.Future.Task.{PackagedTask, assign_task, run_task, invoke_and_set, or_else}

module _ {V E : Type 0} where
  -- The tasks that wait are resumed, and the value or the exception is there: `get` of a
  -- `shared_future` reads it and changes nothing, and `get` of a `future` moves the value out.
  pub record Delivered (h h' : Heap V E) (a : ℕ) (g : Got V E) : Type 0 where
    pub gives : (i : ℕ) → get_shared i h' (some a) ≡ (g, h')
    pub takes : (move : V → (E ⊎ V) × V) (i : ℕ) → get move i h' (some a) ≡ take move h' a g
    pub woken : h'.resumed ≡ h.resumed ++ (h.state a).waiters
    pub nobody : (h'.state a).waiters ≡ []
    pub others : (b : ℕ) → a ≢ b → h'.state b ≡ h.state b

  -- Nothing satisfies the promise any more.
  abbrev pub Refuses : (V → E ⊎ V) → Heap V E → Handle → Type 0
  Refuses construct h p =
      ((v : V) → set_value construct h p v ≡ throws (future_error promise_already_satisfied))
      × ((e : Exn E) → set_exception h p e ≡ throws (future_error promise_already_satisfied))
      × (destroy h p ≡ h)

  settle-Delivered :
      (h : Heap V E) (a : ℕ) (f : SharedState V E → SharedState V E) (g : Got V E)
      → ready (f (h.state a)).status ≡ true
      → outcome (f (h.state a)) ≡ g
      → Delivered h (settle h a f) a g
  unfolding get get_shared outcome
  settle-Delivered h a f g r o =
      let same : (a == a) ≡ true = ground arith in
      record {
        gives = λ i. rw (same, r) (ap (λ k. (k, settle h a f)) o);
        takes = λ move i. rw (same, r) (ap (take move (settle h a f) a) o);
        woken = refl;
        nobody = rw same refl;
        others = λ b ne. ground arith;
      }

  exchange-some :
      (h : Heap V E) (a : ℕ) (f : SharedState V E → SharedState V E)
      → (h.state a).status ≡ empty
      → exchange h a f ≡ some (settle h a f)
  exchange-some h a f e = rw e refl

  build-Delivered :
      (h : Heap V E) (a : ℕ) (r : E ⊎ V)
      → (h.state a).status ≡ empty
      → (h' : Heap V E) × (or_satisfied (set_value_at h a r) ≡ ok h')
        × Delivered h h' a (elim r [ inl e ↦ threw (user e) | inr w ↦ got w ])
  unfolding set_value_at outcome
  build-Delivered h a (inl x) e = (
    settle h a (λ s. record s { status = exception; error = some (user x) }),
    rw e refl,
    settle-Delivered h a (λ s. record s { status = exception; error = some (user x) }) _ refl refl,
  )
  build-Delivered h a (inr v) e = (
    settle h a (λ s. record s { status = value; stored = some v }),
    rw e refl,
    settle-Delivered h a (λ s. record s { status = value; stored = some v }) _ refl refl,
  )

  built :
      (h : Heap V E) (a : ℕ) (r : E ⊎ V)
      → is_empty (h.state a).status ≡ false
      → or_satisfied (set_value_at h a r) ≡ throws (future_error promise_already_satisfied)
  unfolding set_value_at
  built h a (inl e) full = rw full refl
  built h a (inr v) full = rw full refl

  or_else-ok :
      (x again : Option (Heap V E)) (h' : Heap V E)
      → or_satisfied x ≡ ok h'
      → or_satisfied (or_else x again) ≡ ok h'
  or_else-ok none again h' e = ground arith
  or_else-ok (some h) again h' e = e

  invoked :
      (construct : V → E ⊎ V) (h : Heap V E) (a : ℕ) (r : E ⊎ V)
      → (h.state a).status ≡ empty
      → (h' : Heap V E) × (or_satisfied (invoke_and_set construct h a r) ≡ ok h')
        × Delivered h h' a (elim r [
          | inl e ↦ threw (user e)
          | inr v ↦ elim (construct v) [ inl e ↦ threw (user e) | inr w ↦ got w ]
        ])
  unfolding set_exception_at outcome
  invoked construct h a (inl x) e = (
    settle h a (λ s. record s { status = exception; error = some (user x) }),
    rw e refl,
    settle-Delivered h a (λ s. record s { status = exception; error = some (user x) }) _ refl refl,
  )
  invoked construct h a (inr v) e =
      let (h', set, delivered) = build-Delivered h a (construct v) e in
      (h', or_else-ok (set_value_at h a (construct v)) _ h' set, delivered)

  pub set_value-Delivered :
      (construct : V → E ⊎ V) (h : Heap V E) (a : ℕ) (v : V)
      → (h.state a).status ≡ empty
      → (h' : Heap V E) × (set_value construct h (some a) v ≡ ok h')
        × Delivered h h' a (elim (construct v) [ inl e ↦ threw (user e) | inr w ↦ got w ])
  unfolding set_value
  set_value-Delivered construct h a v e = build-Delivered h a (construct v) e

  destroy-settle :
      (h : Heap V E) (a : ℕ)
      → (h.state a).status ≡ empty
      → destroy h (some a) ≡ settle h a (λ s. record s { status = broken })
  unfolding destroy break_promise
  destroy-settle h a e = rw e refl

  -- If the shared state of a promise is empty, its destruction resumes all waiters, and `get` throws
  -- `broken_promise`.
  pub destroy-Delivered :
      (h : Heap V E) (a : ℕ)
      → (h.state a).status ≡ empty
      → Delivered h (destroy h (some a)) a (threw (future_error broken_promise))
  unfolding outcome
  destroy-Delivered h a e =
      subst (λ h'. Delivered h h' a (threw (future_error broken_promise)))
        (sym (destroy-settle h a e))
        (settle-Delivered h a (λ s. record s { status = broken }) _ refl refl)

  full-Refuses :
      (construct : V → E ⊎ V) (h : Heap V E) (a : ℕ)
      → is_empty (h.state a).status ≡ false
      → Refuses construct h (some a)
  unfolding set_value set_value_at set_exception set_exception_at destroy break_promise
  full-Refuses construct h a full =
      (λ v. built h a (construct v) full, λ e. rw full refl, rw full refl)

  exchange-full :
      (h h' : Heap V E) (a : ℕ) (f : SharedState V E → SharedState V E)
      → is_empty (f (h.state a)).status ≡ false
      → or_satisfied (exchange h a f) ≡ ok h'
      → is_empty (h'.state a).status ≡ false
  exchange-full h h' a f full e = elim (Bool-cases (is_empty (h.state a).status)) [
    | inl free ↦
        let made : settle h a f ≡ h' = ground arith in
        let here' : (a == a) ≡ true = ground arith in
        subst (λ (k : Heap V E). is_empty (k.state a).status ≡ false) made (rw here' full)
    | inr full' ↦ absurd (ground arith)
  ]

  set_value_at-full :
      (h h' : Heap V E) (a : ℕ) (r : E ⊎ V)
      → or_satisfied (set_value_at h a r) ≡ ok h'
      → is_empty (h'.state a).status ≡ false
  unfolding set_value_at
  set_value_at-full h h' a (inl x) e =
      exchange-full h h' a (λ s. record s { status = exception; error = some (user x) }) refl e
  set_value_at-full h h' a (inr v) e =
      exchange-full h h' a (λ s. record s { status = value; stored = some v }) refl e

  -- After a `set_value` or `set_exception` that has succeeded, whether or not the value's constructor
  -- threw, every other one throws `promise_already_satisfied`, and the destruction of the promise
  -- changes nothing.
  pub satisfied_once :
      (construct : V → E ⊎ V) (h h' : Heap V E) (p : Handle)
      → ((v : V) × (set_value construct h p v ≡ ok h'))
        ⊎ ((e : Exn E) × (set_exception h p e ≡ ok h'))
      → Refuses construct h' p
  unfolding set_value set_exception set_exception_at
  satisfied_once construct h h' none (inl (v, e)) = absurd (ground arith)
  satisfied_once construct h h' none (inr (x, e)) = absurd (ground arith)
  satisfied_once construct h h' (some a) (inl (v, e)) =
      full-Refuses construct h' a (set_value_at-full h h' a (construct v) e)
  satisfied_once construct h h' (some a) (inr (x, e)) =
      full-Refuses construct h' a
        (exchange-full h h' a (λ s. record s { status = exception; error = some x }) refl e)

  -- If the shared state of a packaged task is empty, its call calls the function, resumes all waiters,
  -- and `get` returns the function's value or throws what the function or the value's constructor
  -- threw.
  pub run_task-Delivered :
      {A : Type 0} (construct : V → E ⊎ V) (bad_function_call : E) (h : Heap V E) (f : A → E ⊎ V)
      (a : ℕ) (x : A)
      → (h.state a).status ≡ empty
      → (h' : Heap V E) × (run_task construct bad_function_call h
            (record { function = some f; handle = some a })
            x
          ≡ ok h')
        × Delivered h h' a (elim (f x) [
          | inl e ↦ threw (user e)
          | inr v ↦ elim (construct v) [ inl e ↦ threw (user e) | inr w ↦ got w ]
        ])
  unfolding run_task
  run_task-Delivered construct bad_function_call h f a x e = invoked construct h a (f x) e

  -- Move assignment of a packaged task whose shared state is empty breaks it: all waiters are resumed,
  -- and `get` throws `broken_promise`.
  pub assign_task-Delivered :
      {A : Type 0} (h : Heap V E) (a : ℕ) (t other : PackagedTask A V E)
      → (h.state a).status ≡ empty
      → t.handle ≡ some a
      → Delivered h (assign_task h t other).2 a (threw (future_error broken_promise))
  unfolding assign_task
  assign_task-Delivered h a t other e at_a = rw at_a (destroy-Delivered h a e)
