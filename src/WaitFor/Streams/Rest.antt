-- ===== src/WaitFor/Streams/Rest.antt =====
-- The functions of include/coopsync_tbb/cuda/wait_for.hpp and hip/wait_for.hpp that wait for several
-- streams have returned when nothing more can happen.
use coopsync_tbb.Base.{
  ℕ, suc, ◌<◌, ◌≡◌, inl, inr, refl, ap, ◌∙◌, Bool-cases, Option, none, some, List, ltb, arith,
  total-zero,
}
use coopsync_tbb.WaitFor.{Callbacks, outcome}
use coopsync_tbb.WaitFor.Streams.{
  Loop, check, failing, left, Item, unregistered, queued, called, written, last, over, Wait, Event,
  goes_on, delivers, notifies, returns, listed, finish, start, register, go_on, deliver, notify,
  step, run,
}
use coopsync_tbb.WaitFor.Streams.Invariant.{
  outstanding, is_last, is_new, unset, frontier, Inv, start-Inv,
}
use coopsync_tbb.WaitFor.Streams.Preserved.{run-Inv}
use coopsync_tbb.WaitFor.Streams.Termination.{rank, loop_rank}

module _ {Err : Type 0} (cb : Callbacks Err) (n : ℕ) where
  -- Where no event has an effect, an item that is registered is over.
  rested_item :
      (i : ℕ) (x : Item Err) (s : Wait Err)
      → s.item i ≡ x
      → is_new x ≡ 0
      → deliver cb n i x s ≡ s
      → notify cb n i x s ≡ s
      → x ≡ over
  unfolding deliver notify
  rested_item i over s e reg d h = refl
  rested_item i unregistered s e reg d h = absurd (ground arith)
  rested_item i queued s e reg d h =
      let same = ap (λ t. rank (t.item i)) d in
      let old = ap (λ x. rank x) e in absurd (ground arith)
  rested_item i (called c) s e reg d h =
      let same = ap (λ t. rank (t.item i)) h in
      let old = ap (λ x. rank x) e in absurd (ground arith)
  rested_item i written s e reg d h =
      let same = ap (λ t. rank (t.item i)) h in
      let old = ap (λ x. rank x) e in absurd (ground arith)
  rested_item i last s e reg d h =
      let same = ap (λ t. rank (t.item i)) h in
      let old = ap (λ x. rank x) e in absurd (ground arith)

  -- Where no event has an effect, the loop has been left.
  rested_loop :
      (l : Loop) (s : Wait Err)
      → s.loop ≡ l
      → Inv cb n s
      → ((i : ℕ) → i < frontier n s.loop → s.item i ≡ over)
      → go_on cb n l s ≡ s
      → l ≡ left
  unfolding go_on register
  rested_loop left s e v done h = refl
  rested_loop (check i) s e v done h =
      let same = ap (λ t. loop_rank n t.loop) h in
      let old = ap (λ l. loop_rank n l) e in
      elim (Bool-cases (ltb i n)) [
        | inl lt ↦ elim (Bool-cases (cb.is_success (cb.registration i))) [
          | inl ok ↦ let on = rw (lt, ok) at same in absurd (ground arith)
          | inr bad ↦ let on = rw (lt, bad) at same in absurd (ground arith)
        ]
        | inr out ↦ absurd (ground arith)
      ]
  rested_loop (failing i) s e v done h =
      let here' : frontier n s.loop ≡ suc i = rw e refl in
      let same = ap (λ t. loop_rank n t.loop) h in
      let old = ap (λ l. loop_rank n l) e in
      let is : s.item i ≡ over = done i (omega arith) in
      let on = rw is at same in absurd (omega (arith, v.within))

  rested_finish :
      (o : Option (List Err)) (s : Wait Err)
      → s.returned ≡ o
      → 0 < s.resumes
      → finish cb n o s ≡ s
      → (r : List Err) × (o ≡ some r)
  rested_finish none s e res h =
      let same = ap (λ t. unset t.returned) h in
      let old = ap (λ o. unset o) e in absurd (ground arith)
  rested_finish (some r) s e res h = (r, refl)

  module _ (es : List Event) where
    abbrev ending : Wait Err
    ending = run cb n es (start cb n)

    ending-Inv : 0 < n → Inv cb n ending
    ending-Inv pos = run-Inv cb n es (start cb n) (start-Inv cb n pos)

    -- With at least one stream, where no event has an effect any more, the task has returned the error
    -- codes of all streams.
    pub rested_returned :
        0 < n
        → ((e : Event) → step cb n e ending ≡ ending)
        → ending.returned ≡ some (listed n (outcome cb))
    unfolding step
    rested_returned pos rest =
        let s = ending in
        let v = ending-Inv pos in
        let done : (i : ℕ) → i < frontier n s.loop → s.item i ≡ over = λ i lt.
          rested_item i (s.item i) s refl (v.behind i lt) (rest (delivers i)) (rest (notifies i)) in
        let out : s.loop ≡ left = rested_loop s.loop s refl v done (rest goes_on) in
        let reached' : frontier n s.loop ≡ n = rw out refl in
        let lasts =
          total-zero n (λ i. is_last (s.item i)) (λ i lt. rw (done i (omega arith)) refl) in
        let outs =
          total-zero n (λ i. outstanding (s.item i)) (λ i lt. rw (done i (omega arith)) refl) in
        let res : 0 < s.resumes = ground (arith, v.resumed, v.counted) in
        let (r, e) = rested_finish s.returned s refl res (rest returns) in
        e ∙ ap (λ x. some x) (v.answer r e).0
