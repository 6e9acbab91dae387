-- ===== src/Machine/Gate.antt =====
-- Gates: something about the shared variables that, once it is so, stays so. A task is past the gate
-- when it has seen it open, or has been resumed by one that has.
use coopsync_tbb.Base.{
  ℕ, ◌≡◌, Bool-cases, inl, inr, Bool, true, false, not, [], ◌∷◌, arith, if◌then◌else◌, ◌==◌, update,
  ap, subst,
}
use coopsync_tbb.Tbb.{Tbb}
use coopsync_tbb.Machine.{
  QueueId, Action, access, wait_if, resume_one, resume_n, resume_all, Pc, at, recheck, parked,
  resuming, Program, State, System, perform, suspend_if, exec, initial, Reach,
}
use coopsync_tbb.Machine.Accounts.{initial-Accounts}
use coopsync_tbb.Machine.Waits.{ActionWaits}
use coopsync_tbb.Machine.Induction.{RunKeeps, CallKeeps, Reach-ind}

module _ {M L : Type 0} (opened : M → Bool) (past : L → Bool) where
  -- An action leaves the gate open, and gets past it only when it is.
  abbrev pub Enters : L → M → Action M L → Type 0
  Enters l m (access m' l') =
      (opened m ≡ true → opened m' ≡ true)
      × ((past l ≡ true → opened m ≡ true) → past l' ≡ true → opened m' ≡ true)
  Enters l m (wait_if q pred l') = Unit {0}
  Enters l m (resume_one q f) = past l ≡ true
  Enters l m (resume_n q k l') = past l ≡ true
  Enters l m (resume_all q l') = past l ≡ true

  -- A task waits for the gate to open.
  abbrev pub WaitsClosed : QueueId → (M → Bool × M) → L → Type 0
  WaitsClosed q pred l = (m : M) → pred m ≡ (not (opened m), m)

  abbrev pub Anywhere : QueueId → L → Type 0
  Anywhere q l = Unit {0}

  pub record Gated (prog : Program M L) : Type 0 where
    pub acts : (luck : Bool) (l : L) (m : M) → prog.Allowed l m → Enters l m (prog.action luck l m)
    pub waits :
        (luck : Bool) (l : L) (m : M) → ActionWaits WaitsClosed Anywhere (prog.action luck l m)
    pub calls : (l l' : L) → prog.Call l l' → past l' ≡ true → past l ≡ true

  -- The Boolean says whether the task is suspended.
  abbrev pub is_past : Pc M L → Bool → Bool
  is_past (at l) b = past l
  is_past (recheck _ _ _) b = false
  is_past (parked _ _) b = not b
  is_past (resuming _ _ _) b = true

  module _ (tbb : Tbb) (prog : Program M L) (n : ℕ) where
    abbrev pub Seen : State tbb M L → (ℕ → Pc M L) → Type 0
    Seen s pc = (j : ℕ) → is_past (pc j) (tbb.is_suspended s.world j) ≡ true → opened s.mem ≡ true

    -- Task `i` moves.
    Seen-update :
        (s : State tbb M L) (pc : ℕ → Pc M L) (i : ℕ) (p' : Pc M L)
        → (is_past p' (tbb.is_suspended s.world i) ≡ true → opened s.mem ≡ true)
        → ((j : ℕ)
            → (i == j) ≡ false
            → is_past (pc j) (tbb.is_suspended s.world j) ≡ true
            → opened s.mem ≡ true)
        → Seen s (update pc i p')
    Seen-update s pc i p' new old j h = elim (Bool-cases (i == j)) [
      | inl here ↦
          let same : j ≡ i = ground arith in
          new (subst (λ k. is_past p' (tbb.is_suspended s.world k) ≡ true) same (rw here at h))
      | inr other ↦ old j other (rw other at h)
    ]

    perform-Seen :
        (i : ℕ) (s : State tbb M L) (pc : ℕ → Pc M L) (l : L) (a : Action M L)
        → pc i ≡ at l
        → Enters l s.mem a
        → ActionWaits WaitsClosed Anywhere a
        → Seen s pc
        → Seen (perform tbb s a).0 (update pc i (perform tbb s a).1)
    unfolding perform
    perform-Seen i s pc l (access m l') e (keeps, enters) w seen =
        let mine : past l ≡ true → opened s.mem ≡ true = λ h. ground (arith, seen i) in
        Seen-update (record s { mem = m }) pc i (at l') (enters mine) (λ j ne h. keeps (seen j h))
    perform-Seen i s pc l (wait_if q pred l') e u w seen = rw (w.0 s.mem) (
        Seen-update s pc i (if not (opened s.mem) then recheck q pred l' else at l')
          (λ h. ground arith) (λ j ne h. seen j h))
    perform-Seen i s pc l (resume_one q f) e here w seen =
        let open' : opened s.mem ≡ true = ground (arith, seen i) in λ j h. open'
    perform-Seen i s pc l (resume_n q c l') e here w seen =
        let open' : opened s.mem ≡ true = ground (arith, seen i) in λ j h. open'
    perform-Seen i s pc l (resume_all q l') e here w seen =
        let open' : opened s.mem ≡ true = ground (arith, seen i) in λ j h. open'

    suspend_if-Seen :
        (i : ℕ) (s : State tbb M L) (pc : ℕ → Pc M L) (q : QueueId) (l : L) (r : Bool × M)
        → r ≡ (not (opened s.mem), s.mem)
        → Seen s pc
        → Seen (suspend_if tbb i s q r l).0 (update pc i (suspend_if tbb i s q r l).1)
    unfolding suspend_if
    suspend_if-Seen i s pc q l (true, m) e seen =
        let same : m ≡ s.mem = ap (λ r. r.1) e in
        rw same (
          Seen-update (suspend_if tbb i s q (true, s.mem) l).0 pc i (parked q l)
            (λ h. ground (arith, tbb.is_suspended-suspend s.world i i))
            (λ j ne h. seen j (ground (arith, tbb.is_suspended-suspend s.world i j))))
    suspend_if-Seen i s pc q l (false, m) e seen =
        let same : m ≡ s.mem = ap (λ r. r.1) e in
        let shut : false ≡ not (opened s.mem) = ap (λ r. r.0) e in
        let open' : opened s.mem ≡ true = ground arith in λ j h. rw same open'

    module _ (gated : Gated prog) where
      pub runs : RunKeeps tbb prog n WaitsClosed Anywhere gated.waits Seen
      unfolding exec
      runs luck i s pc (at l) acc lt e a w ws seen =
          perform-Seen i s pc l (prog.action luck l s.mem) e (gated.acts luck l s.mem a)
            (gated.waits luck l s.mem) seen
      runs luck i s pc (recheck q pred l) acc lt e a w ws seen =
          suspend_if-Seen i s pc q l (pred s.mem) (w.0 s.mem) seen
      runs luck i s pc (parked q l) acc lt e a w ws seen =
          elim (Bool-cases (tbb.is_suspended s.world i)) [
            | inl asleep ↦
                rw asleep (Seen-update s pc i (parked q l) (λ h. ground arith) (λ j ne h. seen j h))
            | inr awake ↦
                rw awake
                  (Seen-update s pc i (at l) (λ h. ground (arith, seen i)) (λ j ne h. seen j h))
          ]
      runs luck i s pc (resuming q [] l) acc lt e a w ws seen =
          let open' : opened s.mem ≡ true = ground (arith, seen i) in λ j h. open'
      runs luck i s pc (resuming q (t ∷ ts) l) acc lt e a w ws seen =
          let open' : opened s.mem ≡ true = ground (arith, seen i) in λ j h. open'

      pub calls : CallKeeps tbb prog n WaitsClosed Anywhere gated.waits Seen
      calls i l l' s pc acc lt e c seen =
          Seen-update s pc i (at l') (λ h. ground (arith, seen i, gated.calls l l' c))
            (λ j ne h. seen j h)

  -- In a state that is reached, the gate is open if a task is at a location past it.
  pub past-opened :
      (tbb : Tbb) (prog : Program M L) (n : ℕ) (m : M) (start : ℕ → L) (w : tbb.World)
      → Gated prog
      → ((t : ℕ) → tbb.is_suspended w t ≡ false)
      → ((j : ℕ) → past (start j) ≡ false)
      → {s : System tbb M L} → Reach tbb prog n (initial tbb prog m start w) s
      → (i : ℕ) (l : L) → s.pc i ≡ at l
      → past l ≡ true
      → opened s.state.mem ≡ true
  past-opened tbb prog n m start w gated quiet outside {s} r i l e h =
      let seen =
        Reach-ind tbb prog n WaitsClosed Anywhere gated.waits (Seen tbb prog n)
          (runs tbb prog n gated) (calls tbb prog n gated)
          (initial-Accounts tbb prog n m start w quiet) (λ j. tt) (λ j g. ground (arith, outside j))
          r in
      ground (arith, seen i)
