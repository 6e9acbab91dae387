-- ===== src/Machine/Accounts.antt =====
-- The accounts of the wait queues along the runs of a primitive.
use coopsync_tbb.Base.{
  ℕ, ◌<◌, ◌≡◌, refl, inl, inr, Bool, false, [], ◌∷◌, arith, Bool-cases, update, count, le-total,
  total-zero,
}
use coopsync_tbb.Tbb.{Tbb}
use coopsync_tbb.Machine.{
  QueueId, Pc, at, recheck, parked, resuming, Program, System, exec, step, run, call, Reach, here,
  next, initial,
}
use coopsync_tbb.Machine.Occupancy.{held, weight, Accounts}
use coopsync_tbb.Machine.Local.{
  Local, Local-Accounts, perform-Local, suspend_if-Local, resume-Local, finish-Local,
}

module _ (tbb : Tbb) {M L : Type 0} (prog : Program M L) (n : ℕ) where
  -- A task about to be resumed is suspended, in the queue's `wait_if`.
  pub held-weight :
      (s : System tbb M L) (i t : ℕ) (q : QueueId)
      → Accounts tbb n s
      → i < n
      → 0 < count t (held q (s.pc i))
      → weight tbb q t s.state s.pc ≡ 1
  held-weight s i t q acc lt pos =
      ground (arith, acc.balanced q t, le-total n (λ j. count t (held q (s.pc j))) i)

  exec-Local :
      (luck : Bool) (s : System tbb M L) (i : ℕ) (p : Pc M L)
      → Accounts tbb n s
      → i < n
      → s.pc i ≡ p
      → Local tbb i s.state s.pc (exec tbb prog luck i s.state p)
  unfolding exec
  exec-Local luck s i (at l) acc lt e =
      perform-Local tbb i s.state s.pc (prog.action luck l s.state.mem) l e
        (record { awake = ground (arith, acc.parks i); parks = acc.parks })
  exec-Local luck s i (recheck q pred l) acc lt e =
      suspend_if-Local tbb i s.state s.pc q pred l (pred s.state.mem) e
        (record { awake = ground (arith, acc.parks i); parks = acc.parks })
  exec-Local luck s i (parked q l) acc lt e = elim (Bool-cases (tbb.is_suspended s.state.world i)) [
    | inl asleep ↦ rw asleep (record {
      moved = λ q t. ground arith;
      parks = λ t h. ground (arith, acc.parks t);
      fresh = λ t h. inl h;
    })
    | inr awake ↦
        rw awake
          (finish-Local tbb i s.state s.pc (parked q l) l e awake (λ q'. ground arith) acc.parks)
  ]
  exec-Local luck s i (resuming q [] l) acc lt e =
      finish-Local tbb i s.state s.pc (resuming q [] l) l e (ground (arith, acc.parks i))
        (λ q'. ground arith) acc.parks
  exec-Local luck s i (resuming q (t ∷ ts) l) acc lt e =
      resume-Local tbb i s.state s.pc q t ts l e (held-weight s i t q acc lt (ground arith))
        acc.parks

  step-Accounts :
      (luck : Bool) (i : ℕ) (s : System tbb M L)
      → i < n
      → Accounts tbb n s
      → Accounts tbb n (step tbb prog luck i s)
  unfolding step
  step-Accounts luck i s lt acc =
      Local-Accounts tbb n i s.state s.pc (exec tbb prog luck i s.state (s.pc i)) lt acc
        (exec-Local luck s i (s.pc i) acc lt refl)

  call-Accounts :
      (i : ℕ) (l l' : L) (s : System tbb M L)
      → i < n
      → s.pc i ≡ at l
      → Accounts tbb n s
      → Accounts tbb n (record s { pc = update s.pc i (at l') })
  call-Accounts i l l' s lt e acc =
      Local-Accounts tbb n i s.state s.pc (s.state, at l') lt acc
        (finish-Local tbb i s.state s.pc (at l) l' e (ground (arith, acc.parks i))
          (λ q. ground arith) acc.parks)

  pub initial-Accounts :
      (m : M) (start : ℕ → L) (w : tbb.World)
      → ((t : ℕ) → tbb.is_suspended w t ≡ false)
      → Accounts tbb n (initial tbb prog m start w)
  initial-Accounts m start w quiet = record {
    balanced = λ q t.
        let at' : ℕ → Pc M L = λ j. at (start j) in
        let none = total-zero n (λ j. count t (held q (at' j))) (λ j lt. ground arith) in
        ground (arith, quiet t);
    parks = λ t h. ground (arith, quiet t);
    in_range = λ t h. ground (arith, quiet t);
  }

  pub Reach-Accounts :
      {s t : System tbb M L} → Accounts tbb n s → Reach tbb prog n s t → Accounts tbb n t
  Reach-Accounts acc here = acc
  Reach-Accounts acc (next {t} r (run luck i lt ok)) =
      step-Accounts luck i t lt (Reach-Accounts acc r)
  Reach-Accounts acc (next {t} r (call i l l' lt e c)) =
      call-Accounts i l l' t lt e (Reach-Accounts acc r)
