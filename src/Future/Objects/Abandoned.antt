-- ===== src/Future/Objects/Abandoned.antt =====
-- Shared states to which no promise refers any more: include/coopsync_tbb/future.hpp.
use coopsync_tbb.Base.{
  ℕ, ◌<◌, ◌≡◌, ◌≢◌, ◌⊎◌, inl, inr, refl, Bool, true, false, none, some, arith, update,
}
use coopsync_tbb.Future.{
  Status, empty, value, exception, broken, transition, is_empty, ready, Heap, suspended,
  make_shared,
}
use coopsync_tbb.Future.Handles.{Handle, get, make_promise}
use coopsync_tbb.Future.Objects.{
  Objects, Step, makes, gets_future, sets_value, sets_exception, exchanges, publishes, wakes,
  destroys, assigns, swaps, waits, gets, shares, Reach, here, next,
}
use coopsync_tbb.Future.Handles.{move_assign, swap}
use coopsync_tbb.Future.Objects.Changes.{
  Change, set_value-Change, set_exception-Change, destroy-Change, wait-Change, get-Change,
  get_future-Change, exchanged-Change, published-Change, woken-Change,
}

empty_unready : (s : Status) → is_empty s ≡ true → ready s ≡ false
empty_unready empty e = refl
empty_unready transition e = refl
empty_unready value e = absurd (ground arith)
empty_unready exception e = absurd (ground arith)
empty_unready broken e = absurd (ground arith)

module _ {V E : Type 0} where
  -- No promise refers to the shared state, which is empty.
  record Abandoned (o : Objects V E) (a : ℕ) : Type 0 where
    made : a < o.heap.size
    free : is_empty (o.heap.state a).status ≡ true
    nobody : (p : ℕ) → o.promise p ≢ some a

  Change-Abandoned :
      (o : Objects V E) {h : Heap V E} {p : Handle} (a : ℕ) (future : ℕ → Handle)
      → Change o.heap h p
      → p ≢ some a
      → Abandoned o a
      → Abandoned (record o { heap = h; future = future }) a
  Change-Abandoned o a future c other b = record {
    made = ground (arith, c.size, b.made);
    free = elim (c.settles a) [
      | inl same ↦ ground (arith, b.free)
      | inr (at_a, full) ↦ absurd (other at_a)
    ];
    nobody = b.nobody;
  }

  step-Abandoned :
      (construct : V → E ⊎ V) (move : V → (E ⊎ V) × V) (overwrite : Bool) {o t : Objects V E}
      (a : ℕ)
      → Step construct move overwrite o t
      → Abandoned o a
      → Abandoned t a
  unfolding make_promise make_shared move_assign swap
  step-Abandoned construct move overwrite {o} a (makes p e) b = record {
    made = ground (arith, b.made);
    free = ground (arith, b.made, b.free);
    nobody = λ q. ground (arith, b.made, b.nobody q);
  }
  step-Abandoned construct move overwrite {o} a (gets_future p f x h e) b =
      Change-Abandoned o a (update o.future f x) (get_future-Change o.heap h (o.promise p) x e)
        (b.nobody p) b
  step-Abandoned construct move overwrite {o} a (sets_value p v h e) b =
      Change-Abandoned o a o.future (set_value-Change construct o.heap h (o.promise p) v e)
        (b.nobody p) b
  step-Abandoned construct move overwrite {o} a (sets_exception p x h e) b =
      Change-Abandoned o a o.future (set_exception-Change o.heap h (o.promise p) x e) (b.nobody p) b
  step-Abandoned construct move overwrite {o} a (exchanges p c st at_c e which) b =
      Change-Abandoned o a o.future (exchanged-Change o.heap c st (o.promise p) at_c which)
        (b.nobody p) b
  step-Abandoned construct move overwrite {o} a (publishes c x made going) b =
      Change-Abandoned o a o.future (published-Change o.heap c x none going) (ground arith) b
  step-Abandoned construct move overwrite {o} a (wakes c r) b =
      Change-Abandoned o a o.future (woken-Change o.heap c none) (ground arith) b
  step-Abandoned construct move overwrite {o} a (destroys p) b =
      let c = Change-Abandoned o a o.future (destroy-Change o.heap (o.promise p)) (b.nobody p) b in
      record { made = c.made; free = c.free; nobody = λ q. ground (arith, b.nobody q) }
  step-Abandoned construct move overwrite {o} a (assigns p q ne fits) b = record {
    made = b.made;
    free = b.free;
    nobody = λ r. ground (arith, b.nobody q, b.nobody r);
  }
  step-Abandoned construct move overwrite {o} a (swaps p q) b = record {
    made = b.made;
    free = b.free;
    nobody = λ r. ground (arith, b.nobody q, b.nobody p, b.nobody r);
  }
  step-Abandoned construct move overwrite {o} a (waits i f c h e) b =
      Change-Abandoned o a o.future (wait-Change i o.heap h (o.future f) c none e) (ground arith) b
  step-Abandoned construct move overwrite {o} a (gets i f) b =
      Change-Abandoned o a (update o.future f (get move i o.heap (o.future f)).2)
        (get-Change move i o.heap (o.future f) none) (ground arith) b
  step-Abandoned construct move overwrite {o} a (shares f g x y e) b = record {
    made = b.made;
    free = b.free;
    nobody = b.nobody;
  }

  Reach-Abandoned :
      (construct : V → E ⊎ V) (move : V → (E ⊎ V) × V) (overwrite : Bool) {o t : Objects V E}
      (a : ℕ)
      → Reach construct move overwrite o t
      → Abandoned o a
      → Abandoned t a
  Reach-Abandoned construct move overwrite a here b = b
  Reach-Abandoned construct move overwrite a (next r st) b =
      step-Abandoned construct move overwrite a st (Reach-Abandoned construct move overwrite a r b)

  empty-suspended :
      (move : V → (E ⊎ V) × V) (i : ℕ) (h : Heap V E) (a : ℕ)
      → is_empty (h.state a).status ≡ true
      → (get move i h (some a)).0 ≡ suspended
  unfolding get
  empty-suspended move i h a e = rw (empty_unready (h.state a).status e) refl

  -- The objects after promise `q` has been moved into promise `p`.
  abbrev pub assigned : Objects V E → ℕ → ℕ → Objects V E
  assigned o p q = record o {
    promise =
        update (update o.promise p (move_assign (o.promise p) (o.promise q)).0) q
          (move_assign (o.promise p) (o.promise q)).1;
  }

  -- If a promise whose shared state is empty is the target of a move assignment, and no other one
  -- refers to that state, then whatever happens afterwards, a task that gets the value from a future
  -- of that state is suspended.
  pub assign_abandons :
      (construct : V → E ⊎ V) (move : V → (E ⊎ V) × V) (overwrite : Bool) (o t : Objects V E)
      (p q a : ℕ)
      → p ≢ q
      → ((r : ℕ) → o.promise r ≡ some a → r ≡ p)
      → a < o.heap.size
      → is_empty (o.heap.state a).status ≡ true
      → Reach construct move overwrite (assigned o p q) t
      → (i : ℕ) → (get move i t.heap (some a)).0 ≡ suspended
  unfolding move_assign
  assign_abandons construct move overwrite o t p q a ne only lt free reach i =
      let start' : Abandoned (assigned o p q) a = record {
        made = lt;
        free = free;
        nobody = λ r. ground (arith, only r, only q);
      } in
      empty-suspended move i t.heap a (Reach-Abandoned construct move overwrite a reach start').free
