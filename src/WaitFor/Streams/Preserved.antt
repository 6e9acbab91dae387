-- ===== src/WaitFor/Streams/Preserved.antt =====
-- Every event keeps the invariant of a task that waits for several streams, by the functions of
-- include/coopsync_tbb/cuda/wait_for.hpp and hip/wait_for.hpp.
use coopsync_tbb.Base.{
  ℕ, zero, suc, ◌<◌, ◌≡◌, inl, inr, refl, ap₂, subst, Bool-cases, true, Option, none, some, List,
  [], ◌∷◌, ◌==◌, ltb, leb, update, arith,
}
use coopsync_tbb.WaitFor.{Callbacks, outcome}
use coopsync_tbb.WaitFor.Streams.{
  Loop, check, failing, left, Item, unregistered, queued, called, written, last, over, is_over,
  Wait, Event, goes_on, delivers, notifies, returns, listed, count_down, finish, register, go_on,
  deliver, notify, step, run,
}
use coopsync_tbb.WaitFor.Streams.Invariant.{
  Right, Inv, Inv-item, Inv-moves, Inv-loop, not_counted, all_over, frontier,
}

module _ {Err : Type 0} (cb : Callbacks Err) (n : ℕ) where
  deliver-Inv :
      (i : ℕ) (x : Item Err) (s : Wait Err)
      → s.item i ≡ x
      → Inv cb n s
      → Inv cb n (deliver cb n i x s)
  unfolding deliver
  deliver-Inv i queued s e v =
      let ok : cb.is_success (cb.registration i) ≡ true =
        subst (Right cb n i (s.errs i)) e (v.right i) in
      Inv-moves cb n s i s.pending s.errs s.resumes queued (called (cb.reported i)) e refl refl refl
        (rw ok refl) (λ j ne. refl) refl (omega arith) v
  deliver-Inv i unregistered s e v = v
  deliver-Inv i (called c) s e v = v
  deliver-Inv i written s e v = v
  deliver-Inv i last s e v = v
  deliver-Inv i over s e v = v

  notify-Inv :
      (i : ℕ) (x : Item Err) (s : Wait Err)
      → s.item i ≡ x
      → Inv cb n s
      → Inv cb n (notify cb n i x s)
  unfolding notify
  notify-Inv i (called c) s e v =
      let ok : c ≡ outcome cb i = subst (Right cb n i (s.errs i)) e (v.right i) in
      Inv-moves cb n s i s.pending (update s.errs i c) s.resumes (called c) written e refl refl refl
        (ground (arith, ok)) (λ j ne. rw ne refl) refl (omega arith) v
  notify-Inv i written s e v =
      let ok : s.errs i ≡ outcome cb i = subst (Right cb n i (s.errs i)) e (v.right i) in
      let pos = not_counted cb n s i e v in
      elim (Bool-cases (s.pending == 1)) [
        | inl one ↦ rw one (
            Inv-moves cb n s i (count_down s.pending) s.errs s.resumes written last e refl
              (ground arith) (ground arith) ok (λ j ne. refl) refl (omega arith) v)
        | inr more ↦ rw more (
            Inv-moves cb n s i (count_down s.pending) s.errs s.resumes written over e refl
              (ground arith) (ground arith) ok (λ j ne. refl) refl (omega arith) v)
      ]
  notify-Inv i last s e v =
      let ok : s.errs i ≡ outcome cb i = subst (Right cb n i (s.errs i)) e (v.right i) in
      Inv-moves cb n s i s.pending s.errs (suc s.resumes) last over e refl refl (omega arith) ok
        (λ j ne. refl) refl (omega arith) v
  notify-Inv i unregistered s e v = v
  notify-Inv i queued s e v = v
  notify-Inv i over s e v = v

  register-Inv :
      (s : Wait Err) (i : ℕ) → s.loop ≡ check i → i < n → Inv cb n s → Inv cb n (register cb n i s)
  unfolding register
  register-Inv s i e lt v =
      let here' : frontier n s.loop ≡ i = rw e refl in
      let fresh : s.item i ≡ unregistered = v.ahead i (omega arith) in
      elim (Bool-cases (cb.is_success (cb.registration i))) [
        | inl ok ↦ rw ok (
            Inv-item cb n s i (check (suc i)) s.pending s.errs s.resumes queued lt (rw fresh refl)
              (rw fresh refl) ok (λ j ne. refl) (omega arith) (omega arith) (λ j a b. omega arith)
              (omega arith) refl (omega arith) v)
        | inr bad ↦ rw bad (
            Inv-item cb n s i (failing i) s.pending s.errs s.resumes (called (cb.registration i)) lt
              (rw fresh refl) (rw fresh refl) (rw bad refl) (λ j ne. refl) (omega arith)
              (omega arith) (λ j a b. omega arith) (omega arith) refl (omega arith) v)
      ]

  go_on-Inv : (l : Loop) (s : Wait Err) → s.loop ≡ l → Inv cb n s → Inv cb n (go_on cb n l s)
  unfolding go_on
  go_on-Inv (check i) s e v =
      let here' : frontier n s.loop ≡ i = rw e refl in
      elim (Bool-cases (ltb i n)) [
        | inl lt ↦ rw lt (register-Inv s i e (ground arith) v)
        | inr out ↦ rw out (Inv-loop cb n s left (ground (arith, v.within)) v)
      ]
  go_on-Inv (failing i) s e v = elim (Bool-cases (is_over (s.item i))) [
    | inl done ↦ rw done (Inv-loop cb n s (check (suc i)) (rw e refl) v)
    | inr not_done ↦ rw not_done v
  ]
  go_on-Inv left s e v = v

  listed_congr : (f g : ℕ → Err) (k : ℕ) → ((i : ℕ) → i < k → f i ≡ g i) → listed k f ≡ listed k g
  listed_congr f g zero same = refl
  listed_congr f g (suc k) same =
      ap₂ (λ x xs. x ∷ xs) (same 0 (omega arith))
        (listed_congr (λ i. f (suc i)) (λ i. g (suc i)) k (λ i lt. same (suc i) (omega arith)))

  finish-Inv :
      (o : Option (List Err)) (s : Wait Err)
      → s.returned ≡ o
      → Inv cb n s
      → Inv cb n (finish cb n o s)
  finish-Inv none s e v = elim (Bool-cases (leb 1 s.resumes)) [
    | inl res ↦
        let pos : 0 < s.resumes = ground arith in
        let all' : listed n s.errs ≡ listed n (outcome cb) =
          listed_congr s.errs (outcome cb) n
            (λ i lt. subst (Right cb n i (s.errs i)) (all_over cb n s i pos lt v) (v.right i)) in
        rw res (record {
          counted = v.counted;
          resumed = v.resumed;
          right = v.right;
          within = v.within;
          ahead = v.ahead;
          behind = v.behind;
          answer = λ r h. (ground arith, omega (arith, v.resumed));
        })
    | inr not_yet ↦ rw not_yet v
  ]
  finish-Inv (some r) s e v = v

  pub step-Inv : (e : Event) (s : Wait Err) → Inv cb n s → Inv cb n (step cb n e s)
  unfolding step
  step-Inv goes_on s v = go_on-Inv s.loop s refl v
  step-Inv (delivers i) s v = deliver-Inv i (s.item i) s refl v
  step-Inv (notifies i) s v = notify-Inv i (s.item i) s refl v
  step-Inv returns s v = finish-Inv s.returned s refl v

  pub run-Inv : (es : List Event) (s : Wait Err) → Inv cb n s → Inv cb n (run cb n es s)
  run-Inv [] s v = v
  run-Inv (e ∷ es) s v = run-Inv es (step cb n e s) (step-Inv e s v)
