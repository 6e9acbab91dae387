-- ===== src/Barrier/Completion/Steps.antt =====
-- The steps of include/coopsync_tbb/barrier.hpp and its completion step.
-- store of the next expected count.
use coopsync_tbb.Base.{
  ℕ, ◌<◌, ◌≡◌, inl, inr, refl, Bool, Bool-cases, true, false, [], ◌∷◌, arith, if◌then◌else◌, ◌==◌,
  update, total-update,
}
use coopsync_tbb.Tbb.{Tbb}
use coopsync_tbb.Machine.{
  QueueId, primary, Pc, at, recheck, parked, resuming, State, perform, suspend_if, exec,
}
use coopsync_tbb.Machine.Induction.{RunKeeps, CallKeeps}
use coopsync_tbb.Barrier.{
  Barrier, Loc, outside, arrive, subtract, complete, reload, restore, advance, wake, token, wait,
  sleep, passed, drop, arrived, is_previous, action, Call, calls_arrive, calls_arrive_and_wait,
  calls_arrive_and_drop, calls_wait, discards, returns,
}
use coopsync_tbb.Barrier.Completion.Invariant.{
  completing, busy, Untouched, Anywhere, waits, positive_barrier, Positive, number, Inv, Inv-move,
  arrived_idle, subtracting,
}

module _ {D : Type 0} (completion : D → D) (tbb : Tbb) (n : ℕ) where
  perform-Inv :
      (luck : Bool) (i : ℕ) (s : State tbb (Barrier D) Loc) (pc : ℕ → Pc (Barrier D) Loc) (l : Loc)
      → i < n
      → pc i ≡ at l
      → Positive l s.mem
      → Inv n s.mem pc
      → Inv n
          (perform tbb s (action completion luck l s.mem)).0.mem
          (update pc i (perform tbb s (action completion luck l s.mem)).1)
  unfolding perform action
  perform-Inv luck i s pc outside lt e a v =
      Inv-move n s.mem s.mem pc i (at outside) lt (rw e refl) refl v
  perform-Inv luck i s pc (arrive u w) lt e a v =
      Inv-move n s.mem s.mem pc i (at (subtract u s.mem.phase w)) lt (rw e refl) refl v
  perform-Inv luck i s pc (subtract u p w) lt e a v =
      let idle : number n pc ≡ 0 = subtracting n s.mem pc a.0 a.1 v in
      let mine : busy (pc i) ≡ 0 = rw e refl in
      elim (Bool-cases (s.mem.expected == u)) [
        | inl all' ↦
            let change = total-update n (busy {D = D}) pc i (at (complete p w)) lt in
            rw all' (record { few = omega arith; none_left = λ pos. ground arith })
        | inr not_all ↦
            let change = total-update n (busy {D = D}) pc i (at (arrived p w)) lt in
            let none' : completing (arrived p w) ≡ 0 = arrived_idle p w in
            rw not_all (record { few = omega arith; none_left = λ pos. absurd (omega arith) })
      ]
  perform-Inv luck i s pc (complete p w) lt e a v =
      Inv-move n s.mem (record s.mem { shared = completion s.mem.shared }) pc i (at (reload p w)) lt
        (rw e refl) refl v
  perform-Inv luck i s pc (reload p w) lt e a v =
      Inv-move n s.mem s.mem pc i (at (restore s.mem.initial_expected p w)) lt (rw e refl) refl v
  perform-Inv luck i s pc (restore k p w) lt e a v =
      let change = total-update n (busy {D = D}) pc i (at (advance p w)) lt in
      let mine : busy (pc i) ≡ 1 = rw e refl in
      record { few = omega (arith, v.few); none_left = λ pos. absurd (omega (arith, v.few)) }
  perform-Inv luck i s pc (advance p w) lt e a v =
      Inv-move n s.mem (perform tbb s (action completion luck (advance p w) s.mem)).0.mem pc i
        (at (wake p w)) lt (rw e refl) refl v
  perform-Inv luck i s pc (wake p w) lt e a v =
      Inv-move n s.mem s.mem pc i (resuming primary (s.queue primary) (arrived p w)) lt
        (rw e (arrived_idle p w)) refl v
  perform-Inv luck i s pc (token p) lt e a v =
      Inv-move n s.mem s.mem pc i (at (token p)) lt (rw e refl) refl v
  perform-Inv luck i s pc (wait p) lt e a v =
      Inv-move n s.mem s.mem pc i (at (if is_previous p s.mem.phase then outside else sleep p)) lt
        (ground arith) refl v
  perform-Inv luck i s pc (sleep p) lt e a v =
      Inv-move n s.mem s.mem pc i
        (if s.mem.phase == p
          then recheck primary (λ m'. (m'.phase == p, m')) (passed p)
          else at (passed p))
        lt (ground arith) refl v
  perform-Inv luck i s pc (passed p) lt e a v =
      Inv-move n s.mem s.mem pc i (at (passed p)) lt (rw e refl) refl v
  perform-Inv luck i s pc drop lt e a v =
      Inv-move n s.mem (perform tbb s (action completion luck drop s.mem)).0.mem pc i
        (at (arrive 1 false)) lt (rw e refl) refl v

  suspend_if-Inv :
      (i : ℕ) (s : State tbb (Barrier D) Loc) (pc : ℕ → Pc (Barrier D) Loc) (q : QueueId) (l : Loc)
      (r : Bool × Barrier D)
      → i < n
      → completing l ≡ busy (pc i)
      → r.1 ≡ s.mem
      → Inv n s.mem pc
      → Inv n (suspend_if tbb i s q r l).0.mem (update pc i (suspend_if tbb i s q r l).1)
  unfolding suspend_if
  suspend_if-Inv i s pc q l (true, m) lt idle same v =
      Inv-move n s.mem m pc i (parked q l) lt idle (rw same refl) v
  suspend_if-Inv i s pc q l (false, m) lt idle same v =
      Inv-move n s.mem m pc i (at l) lt idle (rw same refl) v

  pub runs :
      RunKeeps tbb
        (positive_barrier completion)
        n
        Untouched
        Anywhere
        (waits completion)
        (λ s pc. Inv n s.mem pc)
  unfolding exec
  runs luck i s pc (at l) acc lt e a w ws v = perform-Inv luck i s pc l lt e a v
  runs luck i s pc (recheck q pred l) acc lt e a w ws v =
      suspend_if-Inv i s pc q l (pred s.mem) lt (rw e refl) (w.0 s.mem) v
  runs luck i s pc (parked q l) acc lt e a w ws v = elim (Bool-cases (tbb.is_suspended s.world i)) [
    | inl b ↦ rw b (Inv-move n s.mem s.mem pc i (parked q l) lt (rw e refl) refl v)
    | inr b ↦ rw b (Inv-move n s.mem s.mem pc i (at l) lt (rw e refl) refl v)
  ]
  runs luck i s pc (resuming q [] l) acc lt e a w ws v =
      Inv-move n s.mem s.mem pc i (at l) lt (rw e refl) refl v
  runs luck i s pc (resuming q (t ∷ ts) l) acc lt e a w ws v =
      Inv-move n s.mem s.mem pc i (resuming q ts l) lt (rw e refl) refl v

  called : (l l' : Loc) → Call completion l l' → completing l' ≡ completing l
  called l l' (calls_arrive u) = refl
  called l l' calls_arrive_and_wait = refl
  called l l' calls_arrive_and_drop = refl
  called l l' (calls_wait p) = refl
  called l l' (discards p) = refl
  called l l' (returns p) = refl

  pub calls :
      CallKeeps tbb
        (positive_barrier completion)
        n
        Untouched
        Anywhere
        (waits completion)
        (λ s pc. Inv n s.mem pc)
  calls i l l' s pc acc lt e c v =
      let same = called l l' c in Inv-move n s.mem s.mem pc i (at l') lt (rw e same) refl v
