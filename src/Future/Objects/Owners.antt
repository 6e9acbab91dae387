-- ===== src/Future/Objects/Owners.antt =====
-- The promises that can still settle a shared state of include/coopsync_tbb/future.hpp.
use coopsync_tbb.Base.{
  ℕ, ◌<◌, ◌≡◌, ◌⊎◌, inl, inr, Bool-cases, refl, true, false, none, some, [], ◌++◌, ◌==◌, arith,
  update,
}
use coopsync_tbb.Future.{broken, is_empty, Heap, make_shared, break_promise}
use coopsync_tbb.Future.Handles.{Handle, get, make_promise, destroy}
use coopsync_tbb.Future.Objects.{
  Objects, start, Step, makes, gets_future, sets_value, sets_exception, exchanges, publishes, wakes,
  destroys, assigns, swaps, waits, gets, shares, Reach, here, next,
}
use coopsync_tbb.Base.{ℕ_discrete}
use coopsync_tbb.Future.Handles.{move_assign, swap}
use coopsync_tbb.Future.Objects.Changes.{
  Change, set_value-Change, set_exception-Change, destroy-Change, wait-Change, get-Change,
  get_future-Change, exchanged-Change, published-Change, woken-Change,
}

module _ {V E : Type 0} where
  -- Each shared state that is empty has a promise.
  abbrev Owned : Objects V E → Type 0
  Owned o =
      (a : ℕ)
      → a < o.heap.size
      → is_empty (o.heap.state a).status ≡ true
      → (p : ℕ) × (o.promise p ≡ some a)

  destroy-full : (h : Heap V E) (a : ℕ) → is_empty ((destroy h (some a)).state a).status ≡ false
  unfolding destroy break_promise
  destroy-full h a = elim (Bool-cases (is_empty (h.state a).status)) [
    | inl free ↦ ground arith
    | inr full ↦ ground arith
  ]

  -- A change that leaves a state empty has found it empty.
  was_empty :
      {h h' : Heap V E} {p : Handle}
      → Change h h' p
      → (a : ℕ) → is_empty (h'.state a).status ≡ true
      → is_empty (h.state a).status ≡ true
  was_empty c a e = elim (c.settles a) [
    | inl same ↦ ground arith
    | inr (at_a, full) ↦ absurd (ground arith)
  ]

  Change-Owned :
      (o : Objects V E) {h : Heap V E} {p : Handle} (future : ℕ → Handle)
      → Change o.heap h p
      → Owned o
      → Owned (record o { heap = h; future = future })
  Change-Owned o future c owned a lt e = owned a (ground (arith, c.size)) (was_empty c a e)

  step-Owned :
      (construct : V → E ⊎ V) (move : V → (E ⊎ V) × V) {o t : Objects V E}
      → Step construct move false o t
      → Owned o
      → Owned t
  unfolding make_promise make_shared move_assign swap
  step-Owned construct move {o} (makes p e) owned a lt free = elim (ℕ_discrete o.heap.size a) [
    | yes new ↦ (p, ground arith)
    | no old ↦ let (q, at_a) = owned a (ground arith) (ground arith) in (q, ground arith)
  ]
  step-Owned construct move {o} (gets_future p f x h e) owned a lt free =
      Change-Owned o (update o.future f x) (get_future-Change o.heap h (o.promise p) x e) owned a lt
        free
  step-Owned construct move {o} (sets_value p v h e) owned a lt free =
      Change-Owned o o.future (set_value-Change construct o.heap h (o.promise p) v e) owned a lt
        free
  step-Owned construct move {o} (sets_exception p x h e) owned a lt free =
      Change-Owned o o.future (set_exception-Change o.heap h (o.promise p) x e) owned a lt free
  step-Owned construct move {o} (exchanges p b st at_b e which) owned a lt free =
      Change-Owned o o.future (exchanged-Change o.heap b st (o.promise p) at_b which) owned a lt
        free
  step-Owned construct move {o} (publishes b x made going) owned a lt free =
      Change-Owned o o.future (published-Change o.heap b x none going) owned a lt free
  step-Owned construct move {o} (wakes b r) owned a lt free =
      Change-Owned o o.future (woken-Change o.heap b none) owned a lt free
  step-Owned construct move {o} (destroys p) owned a lt free =
      let c = destroy-Change o.heap (o.promise p) in
      let (q, at_a) = owned a (ground (arith, c.size)) (was_empty c a free) in
      elim (ℕ_discrete p q) [
        | yes same ↦
            let mine : o.promise p ≡ some a = ground arith in
            let gone : is_empty ((destroy o.heap (o.promise p)).state a).status ≡ false =
              rw mine (destroy-full o.heap a) in
            absurd (ground arith)
        | no other ↦ (q, ground arith)
      ]
  step-Owned construct move {o} (assigns p q ne fits) owned a lt free =
      let (r, at_a) = owned a lt free in
      elim (ℕ_discrete q r) [ yes moved ↦ (p, ground arith) | no other ↦ (r, ground arith) ]
  step-Owned construct move {o} (swaps p q) owned a lt free =
      let (r, at_a) = owned a lt free in
      elim (ℕ_discrete q r) [
        | yes second ↦ (p, ground arith)
        | no other ↦ elim (ℕ_discrete p r) [
          | yes first ↦ (q, ground arith)
          | no neither ↦ (r, ground arith)
        ]
      ]
  step-Owned construct move {o} (waits i f b h e) owned a lt free =
      Change-Owned o o.future (wait-Change i o.heap h (o.future f) b none e) owned a lt free
  step-Owned construct move {o} (gets i f) owned a lt free =
      Change-Owned o (update o.future f (get move i o.heap (o.future f)).2)
        (get-Change move i o.heap (o.future f) none) owned a lt free
  step-Owned construct move {o} (shares f g x y e) owned a lt free = owned a lt free

  Reach-Owned :
      (construct : V → E ⊎ V) (move : V → (E ⊎ V) × V) {o : Objects V E}
      → Reach construct move false start o
      → Owned o
  Reach-Owned construct move here a lt e = absurd (omega arith)
  Reach-Owned construct move (next r st) a lt e =
      step-Owned construct move st (Reach-Owned construct move r) a lt e

  destroy-wakes :
      (h : Heap V E) (a : ℕ)
      → is_empty (h.state a).status ≡ true
      → (((destroy h (some a)).state a).status ≡ broken)
        × (((destroy h (some a)).state a).waiters ≡ [])
        × ((destroy h (some a)).resumed ≡ h.resumed ++ (h.state a).waiters)
  unfolding destroy break_promise
  destroy-wakes h a e =
      let here' : (a == a) ≡ true = ground arith in rw (e, here') (refl, refl, refl)

  -- In a state that is reached without assigning to a promise that has a shared state, a promise
  -- refers to each shared state that is empty, and the destruction of this promise breaks that state
  -- and resumes all tasks that wait for it.
  pub empty_owned :
      (construct : V → E ⊎ V) (move : V → (E ⊎ V) × V) {o : Objects V E}
      → Reach construct move false start o
      → (a : ℕ) → a < o.heap.size
      → is_empty (o.heap.state a).status ≡ true
      → (p : ℕ) × (o.promise p ≡ some a)
        × (((destroy o.heap (o.promise p)).state a).status ≡ broken)
        × (((destroy o.heap (o.promise p)).state a).waiters ≡ [])
        × ((destroy o.heap (o.promise p)).resumed ≡ o.heap.resumed ++ (o.heap.state a).waiters)
  empty_owned construct move {o} r a lt free =
      let (p, at_a) = Reach-Owned construct move r a lt free in
      let (over, nobody, resumed) = destroy-wakes o.heap a free in
      (p, at_a, rw at_a over, rw at_a nobody, rw at_a resumed)
