-- ===== src/WaitFor/Streams/Resumption.antt =====
-- When a task that waits for several streams is resumed, and with what: the functions of
-- include/coopsync_tbb/cuda/wait_for.hpp and hip/wait_for.hpp.
use coopsync_tbb.Base.{
  ℕ, ◌<◌, ◌≤◌, ◌≡◌, refl, sym, ◌∙◌, Option, none, some, List, [], ◌∷◌, arith, total-le_count,
  dec_lt,
}
use coopsync_tbb.WaitFor.{Callbacks, outcome}
use coopsync_tbb.WaitFor.Streams.{
  Loop, check, failing, left, Item, unregistered, queued, called, written, last, over, Wait, Event,
  goes_on, delivers, notifies, returns, listed, finish, start, register, go_on, deliver, notify,
  step, run,
}
use coopsync_tbb.WaitFor.Streams.Invariant.{outstanding, Inv, start-Inv, all_over, not_counted}
use coopsync_tbb.WaitFor.Streams.Preserved.{run-Inv}

outstanding_le : {Err : Type 0} (x : Item Err) → outstanding x ≤ 1
outstanding_le unregistered = omega arith
outstanding_le queued = omega arith
outstanding_le (called e) = omega arith
outstanding_le written = omega arith
outstanding_le last = omega arith
outstanding_le over = omega arith

some_injective : {A : Type 0} {a b : A} → some a ≡ some b → a ≡ b
some_injective h = ground arith

module _ {Err : Type 0} (cb : Callbacks Err) (n : ℕ) where
  go_on-returned : (l : Loop) (s : Wait Err) → (go_on cb n l s).returned ≡ s.returned
  unfolding go_on register
  go_on-returned (check i) s = ground arith
  go_on-returned (failing i) s = ground arith
  go_on-returned left s = refl

  deliver-returned :
      (i : ℕ) (x : Item Err) (s : Wait Err) → (deliver cb n i x s).returned ≡ s.returned
  unfolding deliver
  deliver-returned i unregistered s = refl
  deliver-returned i queued s = refl
  deliver-returned i (called e) s = refl
  deliver-returned i written s = refl
  deliver-returned i last s = refl
  deliver-returned i over s = refl

  notify-returned :
      (i : ℕ) (x : Item Err) (s : Wait Err) → (notify cb n i x s).returned ≡ s.returned
  unfolding notify
  notify-returned i unregistered s = refl
  notify-returned i queued s = refl
  notify-returned i (called e) s = refl
  notify-returned i written s = refl
  notify-returned i last s = refl
  notify-returned i over s = refl

  finish-returned :
      (o : Option (List Err)) (s : Wait Err) (r : List Err)
      → o ≡ some r
      → s.returned ≡ some r
      → (finish cb n o s).returned ≡ some r
  finish-returned (some q) s r e h = h
  finish-returned none s r e h = absurd (ground arith)

  -- What the task has returned stays.
  returned_stays :
      (e : Event) (s : Wait Err) (r : List Err)
      → s.returned ≡ some r
      → (step cb n e s).returned ≡ some r
  unfolding step
  returned_stays goes_on s r h = go_on-returned s.loop s ∙ h
  returned_stays (delivers i) s r h = deliver-returned i (s.item i) s ∙ h
  returned_stays (notifies i) s r h = notify-returned i (s.item i) s ∙ h
  returned_stays returns s r h = finish-returned s.returned s r h h

  run_stays :
      (es : List Event) (s : Wait Err) (r : List Err)
      → s.returned ≡ some r
      → (run cb n es s).returned ≡ some r
  run_stays [] s r h = h
  run_stays (e ∷ es) s r h = run_stays es (step cb n e s) r (returned_stays e s r h)

  nothing : n ≡ 0 → (start cb n).returned ≡ some []
  unfolding start
  nothing e = ground arith

  module _ (es : List Event) where
    abbrev ending : Wait Err
    ending = run cb n es (start cb n)

    ending-Inv : 0 < n → Inv cb n ending
    ending-Inv pos = run-Inv cb n es (start cb n) (start-Inv cb n pos)

    -- If the task has returned, it has returned the error code of each stream, in their order: what
    -- the runtime has reported to the callback, or the error of its registration.
    pub returned_outcomes : (r : List Err) → ending.returned ≡ some r → r ≡ listed n (outcome cb)
    returned_outcomes r h = elim (dec_lt 0 n) [
      | yes pos ↦ ((ending-Inv pos).answer r h).0
      | no zero' ↦
          let empty' : n ≡ 0 = omega arith in
          some_injective (sym h ∙ run_stays es (start cb n) [] (nothing empty')) ∙ rw empty' refl
    ]

    -- With at least one stream, in whatever order the callbacks come, the task is resumed at most once,
    -- and when it is, every item is over: no callback uses the context, the items or the error codes
    -- any more.
    pub resumed_once :
        0 < n → (ending.resumes ≤ 1) × (0 < ending.resumes → (i : ℕ) → i < n → ending.item i ≡ over)
    resumed_once pos =
        let v = ending-Inv pos in
        (omega (arith, v.resumed), λ res i lt. all_over cb n ending i res lt v)

    -- When an item is about to count down, the counter is not zero, and it is at most the number of
    -- streams.
    pub counter_in_bounds :
        0 < n → (i : ℕ) → ending.item i ≡ written → (0 < ending.pending) × (ending.pending ≤ n)
    counter_in_bounds pos i e =
        let v = ending-Inv pos in
        let out : ℕ → ℕ = λ j. outstanding (ending.item j) in
        (
          not_counted cb n ending i e v,
          omega (arith, v.counted, total-le_count n out (λ j. outstanding_le (ending.item j))),
        )
