-- ===== src/WaitFor/Streams/Termination.antt =====
-- The functions of include/coopsync_tbb/cuda/wait_for.hpp and hip/wait_for.hpp that wait for several
-- streams return, if the runtime calls every callback that it has accepted.
use coopsync_tbb.Base.{
  ℕ, suc, ◌+◌, ◌-◌, ◌*◌, ◌<◌, ◌≤◌, ◌≡◌, ◌⊎◌, inl, inr, refl, Bool-cases, Option, none, some, List,
  if◌then◌else◌, ◌==◌, ltb, leb, update, arith, total, total-update,
}
use coopsync_tbb.WaitFor.{Callbacks}
use coopsync_tbb.WaitFor.Streams.{
  Loop, check, failing, left, Item, unregistered, queued, called, written, last, over, is_over,
  Wait, Event, goes_on, delivers, notifies, returns, finish, start, register, go_on, deliver,
  notify, step, run,
}
use coopsync_tbb.WaitFor.Streams.Invariant.{unset, frontier, Inv, start-Inv, reached}
use coopsync_tbb.WaitFor.Streams.Preserved.{run-Inv}

abbrev pub rank : {Err : Type 0} → Item Err → ℕ
rank unregistered = 5
rank queued = 4
rank (called e) = 3
rank written = 2
rank last = 1
rank over = 0

abbrev pub loop_rank : ℕ → Loop → ℕ
loop_rank n (check i) = 2 * (n - i) + 1
loop_rank n (failing i) = 2 * (n - i)
loop_rank n left = 0

-- What is left to do.
abbrev pub measure : {Err : Type 0} → ℕ → Wait Err → ℕ
measure n s = total n (λ i. rank (s.item i)) + loop_rank n s.loop + unset s.returned

module _ {Err : Type 0} (cb : Callbacks Err) (n : ℕ) where
  moved :
      (s : Wait Err) (i : ℕ) (x : Item Err)
      → i < n
      → total n (λ j. rank (update s.item i x j)) + rank (s.item i)
        ≡ total n (λ j. rank (s.item j)) + rank x
  moved s i x lt = total-update n (rank {Err = Err}) s.item i x lt

  deliver_less :
      (i : ℕ) (x : Item Err) (s : Wait Err)
      → s.item i ≡ x
      → Inv cb n s
      → (deliver cb n i x s ≡ s) ⊎ (measure n (deliver cb n i x s) < measure n s)
  unfolding deliver
  deliver_less i queued s e v =
      let lt = reached cb n s i queued e refl v in
      let change = moved s i (called (cb.reported i)) (omega (arith, v.within)) in
      let old : rank (s.item i) ≡ 4 = rw e refl in inr (omega arith)
  deliver_less i unregistered s e v = inl refl
  deliver_less i (called c) s e v = inl refl
  deliver_less i written s e v = inl refl
  deliver_less i last s e v = inl refl
  deliver_less i over s e v = inl refl

  notify_less :
      (i : ℕ) (x : Item Err) (s : Wait Err)
      → s.item i ≡ x
      → Inv cb n s
      → (notify cb n i x s ≡ s) ⊎ (measure n (notify cb n i x s) < measure n s)
  unfolding notify
  notify_less i (called c) s e v =
      let lt = reached cb n s i (called c) e refl v in
      let change = moved s i written (omega (arith, v.within)) in
      let old : rank (s.item i) ≡ 3 = rw e refl in inr (omega arith)
  notify_less i written s e v =
      let lt = reached cb n s i written e refl v in
      let x : Item Err = if s.pending == 1 then last else over in
      let change = moved s i x (omega (arith, v.within)) in
      let old : rank (s.item i) ≡ 2 = rw e refl in
      let new : rank x ≤ 1 = ground arith in inr (omega arith)
  notify_less i last s e v =
      let lt = reached cb n s i last e refl v in
      let change = moved s i over (omega (arith, v.within)) in
      let old : rank (s.item i) ≡ 1 = rw e refl in inr (omega arith)
  notify_less i unregistered s e v = inl refl
  notify_less i queued s e v = inl refl
  notify_less i over s e v = inl refl

  go_on_less :
      (l : Loop) (s : Wait Err)
      → s.loop ≡ l
      → Inv cb n s
      → (go_on cb n l s ≡ s) ⊎ (measure n (go_on cb n l s) < measure n s)
  unfolding go_on register
  go_on_less (check i) s e v =
      let here' : frontier n s.loop ≡ i = rw e refl in
      let old : loop_rank n s.loop ≡ 2 * (n - i) + 1 = rw e refl in
      elim (Bool-cases (ltb i n)) [
        | inl lt ↦
            let below : i < n = ground arith in
            let fresh : rank (s.item i) ≡ 5 = rw (v.ahead i (omega arith)) refl in
            elim (Bool-cases (cb.is_success (cb.registration i))) [
              | inl ok ↦ let change = moved s i queued below in rw (lt, ok) (inr (omega arith))
              | inr bad ↦
                  let change = moved s i (called (cb.registration i)) below in
                  rw (lt, bad) (inr (omega arith))
            ]
        | inr out ↦ rw out (inr (omega arith))
      ]
  go_on_less (failing i) s e v =
      let old : loop_rank n s.loop ≡ 2 * (n - i) = rw e refl in
      let here' : frontier n s.loop ≡ suc i = rw e refl in
      elim (Bool-cases (is_over (s.item i))) [
        | inl done ↦ rw done (inr (omega (arith, v.within)))
        | inr not_done ↦ rw not_done (inl refl)
      ]
  go_on_less left s e v = inl refl

  finish_less :
      (o : Option (List Err)) (s : Wait Err)
      → s.returned ≡ o
      → (finish cb n o s ≡ s) ⊎ (measure n (finish cb n o s) < measure n s)
  finish_less none s e = elim (Bool-cases (leb 1 s.resumes)) [
    | inl res ↦ let old : unset s.returned ≡ 1 = rw e refl in rw res (inr (omega arith))
    | inr not_yet ↦ rw not_yet (inl refl)
  ]
  finish_less (some r) s e = inl refl

  step_less :
      (e : Event) (s : Wait Err)
      → Inv cb n s
      → (step cb n e s ≡ s) ⊎ (measure n (step cb n e s) < measure n s)
  unfolding step
  step_less goes_on s v = go_on_less s.loop s refl v
  step_less (delivers i) s v = deliver_less i (s.item i) s refl v
  step_less (notifies i) s v = notify_less i (s.item i) s refl v
  step_less returns s v = finish_less s.returned s refl

  module _ (es : List Event) where
    abbrev ending : Wait Err
    ending = run cb n es (start cb n)

    ending-Inv : 0 < n → Inv cb n ending
    ending-Inv pos = run-Inv cb n es (start cb n) (start-Inv cb n pos)

    -- With at least one stream, every event has no effect, or leaves less to do: `measure` is smaller.
    pub events_decrease :
        0 < n
        → (e : Event)
        → (step cb n e ending ≡ ending) ⊎ (measure n (step cb n e ending) < measure n ending)
    events_decrease pos e = step_less e ending (ending-Inv pos)
