-- ===== src/WaitFor/Single/Resumption.antt =====
-- When a task that waits for one callback is resumed, and with what: the functions of
-- include/coopsync_tbb/cuda/wait_for.hpp, hip/wait_for.hpp and onnx/wait_for.hpp.
use coopsync_tbb.Base.{
  ℕ, ◌<◌, ◌≤◌, ◌≡◌, inl, inr, refl, ap, subst, ◌∙◌, Bool-cases, true, Option, none, some, List, [],
  ◌∷◌, leb, arith,
}
use coopsync_tbb.WaitFor.{Callbacks, outcome}
use coopsync_tbb.WaitFor.Single.{
  Stage, unregistered, queued, called, written, over, Wait, Event, registers, delivers, notifies,
  returns, start, register, deliver, notify, finish, step, run,
}

-- What is left to do.
abbrev rank : {Err : Type 0} → Stage Err → ℕ
rank unregistered = 4
rank queued = 3
rank (called c) = 2
rank written = 1
rank over = 0

abbrev unset : {A : Type 0} → Option A → ℕ
unset none = 1
unset (some a) = 0

module _ {Err : Type 0} (cb : Callbacks Err) where
  abbrev Right : Stage Err → Err → ℕ → Type 0
  Right unregistered e m = m ≡ 0
  Right queued e m = (cb.is_success (cb.registration 0) ≡ true) × (m ≡ 0)
  Right (called c) e m = (c ≡ outcome cb 0) × (m ≡ 0)
  Right written e m = (e ≡ outcome cb 0) × (m ≡ 0)
  Right over e m = (e ≡ outcome cb 0) × (m ≡ 1)

  record Inv (s : Wait Err) : Type 0 where
    right : Right s.stage s.err s.resumes
    answer : (e : Err) → s.returned ≡ some e → (e ≡ outcome cb 0) × (s.resumes ≡ 1)

  register-Inv : (x : Stage Err) (s : Wait Err) → s.stage ≡ x → Inv s → Inv (register cb x s)
  unfolding register
  register-Inv unregistered s e v =
      let old = subst (λ x. Right x s.err s.resumes) e v.right in
      elim (Bool-cases (cb.is_success (cb.registration 0))) [
        | inl ok ↦ rw ok (record { right = (ok, old); answer = v.answer })
        | inr bad ↦ rw bad (record { right = (rw bad refl, old); answer = v.answer })
      ]
  register-Inv queued s e v = v
  register-Inv (called c) s e v = v
  register-Inv written s e v = v
  register-Inv over s e v = v

  deliver-Inv : (x : Stage Err) (s : Wait Err) → s.stage ≡ x → Inv s → Inv (deliver cb x s)
  unfolding deliver
  deliver-Inv queued s e v =
      let old = subst (λ x. Right x s.err s.resumes) e v.right in
      record { right = (rw old.0 refl, old.1); answer = v.answer }
  deliver-Inv unregistered s e v = v
  deliver-Inv (called c) s e v = v
  deliver-Inv written s e v = v
  deliver-Inv over s e v = v

  notify-Inv : (x : Stage Err) (s : Wait Err) → s.stage ≡ x → Inv s → Inv (notify cb x s)
  unfolding notify
  notify-Inv (called c) s e v = record {
    right = subst (λ x. Right x s.err s.resumes) e v.right;
    answer = v.answer;
  }
  notify-Inv written s e v =
      let old = subst (λ x. Right x s.err s.resumes) e v.right in
      record {
        right = (old.0, omega (arith, old.1));
        answer = λ e' h. absurd (omega (arith, old.1, (v.answer e' h).1));
      }
  notify-Inv unregistered s e v = v
  notify-Inv queued s e v = v
  notify-Inv over s e v = v

  over_of : (x : Stage Err) (e : Err) (m : ℕ) → 0 < m → Right x e m → x ≡ over
  over_of unregistered e m pos r = absurd (omega arith)
  over_of queued e m pos r = absurd (omega arith)
  over_of (called c) e m pos r = absurd (omega arith)
  over_of written e m pos r = absurd (omega arith)
  over_of over e m pos r = refl

  at_most_once : (x : Stage Err) (e : Err) (m : ℕ) → Right x e m → m ≤ 1
  at_most_once unregistered e m r = omega arith
  at_most_once queued e m r = omega arith
  at_most_once (called c) e m r = omega arith
  at_most_once written e m r = omega arith
  at_most_once over e m r = omega arith

  finish-Inv : (o : Option Err) (s : Wait Err) → s.returned ≡ o → Inv s → Inv (finish cb o s)
  finish-Inv none s e v = elim (Bool-cases (leb 1 s.resumes)) [
    | inl res ↦
        let done = over_of s.stage s.err s.resumes (ground arith) v.right in
        let end' = subst (λ x. Right x s.err s.resumes) done v.right in
        rw res (record { right = v.right; answer = λ e' h. (ground arith, end'.1) })
    | inr not_yet ↦ rw not_yet v
  ]
  finish-Inv (some r) s e v = v

  step-Inv : (e : Event) (s : Wait Err) → Inv s → Inv (step cb e s)
  unfolding step
  step-Inv registers s v = register-Inv s.stage s refl v
  step-Inv delivers s v = deliver-Inv s.stage s refl v
  step-Inv notifies s v = notify-Inv s.stage s refl v
  step-Inv returns s v = finish-Inv s.returned s refl v

  run-Inv : (es : List Event) (s : Wait Err) → Inv s → Inv (run cb es s)
  run-Inv [] s v = v
  run-Inv (e ∷ es) s v = run-Inv es (step cb e s) (step-Inv e s v)

  -- Where no event has an effect, the callback is over.
  rested_stage :
      (x : Stage Err) (s : Wait Err)
      → s.stage ≡ x
      → register cb x s ≡ s
      → deliver cb x s ≡ s
      → notify cb x s ≡ s
      → x ≡ over
  unfolding register deliver notify
  rested_stage over s e r d h = refl
  rested_stage unregistered s e r d h =
      let old = ap rank e in
      elim (Bool-cases (cb.is_success (cb.registration 0))) [
        | inl ok ↦ let same = ap (λ t. rank t.stage) (rw ok at r) in absurd (omega arith)
        | inr bad ↦ let same = ap (λ t. rank t.stage) (rw bad at r) in absurd (omega arith)
      ]
  rested_stage queued s e r d h =
      let old = ap rank e in let same = ap (λ t. rank t.stage) d in absurd (omega arith)
  rested_stage (called c) s e r d h =
      let old = ap rank e in let same = ap (λ t. rank t.stage) h in absurd (omega arith)
  rested_stage written s e r d h =
      let old = ap rank e in let same = ap (λ t. rank t.stage) h in absurd (omega arith)

  rested_finish :
      (o : Option Err) (s : Wait Err)
      → s.returned ≡ o
      → s.resumes ≡ 1
      → finish cb o s ≡ s
      → (e : Err) × (o ≡ some e)
  rested_finish none s e res h =
      let same = ap (λ t. unset t.returned) h in let old = ap unset e in absurd (ground arith)
  rested_finish (some r) s e res h = (r, refl)

  module _ (es : List Event) where
    abbrev ending : Wait Err
    ending = run cb es (start cb)

    ending-Inv : Inv ending
    ending-Inv =
        run-Inv es (start cb) (record { right = refl; answer = λ e h. absurd (ground arith) })

    -- Whatever the order of the events, the task is resumed at most once; if it is, the context is no
    -- longer used; and if it has returned, it has returned what the runtime has reported to the
    -- callback, or the error of the registration.
    pub single_outcome :
        (ending.resumes ≤ 1)
        × (0 < ending.resumes → ending.stage ≡ over)
        × ((e : Err) → ending.returned ≡ some e → e ≡ outcome cb 0)
    single_outcome =
        let v = ending-Inv in
        (
          at_most_once ending.stage ending.err ending.resumes v.right,
          λ pos. over_of ending.stage ending.err ending.resumes pos v.right,
          λ e h. (v.answer e h).0,
        )

    -- Where no event has an effect, the task has returned.
    pub single_rested :
        ((e : Event) → step cb e ending ≡ ending) → ending.returned ≡ some (outcome cb 0)
    unfolding step
    single_rested rest =
        let s = ending in
        let v = ending-Inv in
        let done = rested_stage s.stage s refl (rest registers) (rest delivers) (rest notifies) in
        let end' = subst (λ x. Right x s.err s.resumes) done v.right in
        let (e, is) = rested_finish s.returned s refl end'.1 (rest returns) in
        is ∙ ap (λ x. some x) (v.answer e is).0
