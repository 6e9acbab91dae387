-- ===== src/Machine/Waits.antt =====
-- What holds of every `wait_if` in a program holds of every task that is inside one.
use coopsync_tbb.Base.{
  ℕ, ◌≡◌, inl, inr, Bool, true, false, [], ◌∷◌, arith, ◌==◌, Bool-cases, update,
}
use coopsync_tbb.Tbb.{Tbb}
use coopsync_tbb.Machine.{
  QueueId, primary, Action, access, wait_if, resume_one, resume_n, resume_all, Pc, at, recheck,
  parked, resuming, Program, State, System, perform, suspend_if, exec, step, run, call, Reach, here,
  next,
}
use coopsync_tbb.Machine.Occupancy.{parked_on, is_parked}

module _ {M L : Type 0} (Waits : QueueId → (M → Bool × M) → L → Type 0)
    (Lands : QueueId → L → Type 0) where
  abbrev pub ActionWaits : Action M L → Type 0
  ActionWaits (wait_if q pred l) = Waits q pred l × Lands q l
  ActionWaits (access m l) = Unit {0}
  ActionWaits (resume_one q f) = Unit {0}
  ActionWaits (resume_n q k l) = Unit {0}
  ActionWaits (resume_all q l) = Unit {0}

  abbrev pub PcWaits : Pc M L → Type 0
  PcWaits (recheck q pred l) = Waits q pred l × Lands q l
  PcWaits (parked q l) = Lands q l
  PcWaits (at l) = Unit {0}
  PcWaits (resuming q ts l) = Unit {0}

  -- Where every wait is on the first queue, a parked task is parked on it.
  pub parked_on_primary :
      (p : Pc M L)
      → ((q : QueueId) (l : L) → Lands q l → q ≡ primary)
      → is_parked p ≡ true
      → PcWaits p
      → parked_on primary p ≡ true
  parked_on_primary (parked q l) one h w = rw (one q l w)
  parked_on_primary (at l) one h w = cc
  parked_on_primary (recheck q pred l) one h w = cc
  parked_on_primary (resuming q ts l) one h w = cc

  module _ (tbb : Tbb) (prog : Program M L)
      (ok : (luck : Bool) (l : L) (m : M) → ActionWaits (prog.action luck l m)) where
    perform-PcWaits :
        (s : State tbb M L) (a : Action M L) → ActionWaits a → PcWaits (perform tbb s a).1
    unfolding perform
    perform-PcWaits s (access m l) h = tt
    perform-PcWaits s (wait_if q pred l) h = elim (Bool-cases (pred s.mem).0) [
      | inl e ↦ rw e h
      | inr e ↦ rw e tt
    ]
    perform-PcWaits s (resume_one q f) h = ground arith
    perform-PcWaits s (resume_n q k l) h = tt
    perform-PcWaits s (resume_all q l) h = tt

    suspend_if-PcWaits :
        (i : ℕ) (s : State tbb M L) (q : QueueId) (r : Bool × M) (l : L)
        → Lands q l
        → PcWaits (suspend_if tbb i s q r l).1
    unfolding suspend_if
    suspend_if-PcWaits i s q (true, m) l h = h
    suspend_if-PcWaits i s q (false, m) l h = tt

    exec-PcWaits :
        (luck : Bool) (i : ℕ) (s : State tbb M L) (p : Pc M L)
        → PcWaits p
        → PcWaits (exec tbb prog luck i s p).1
    unfolding exec
    exec-PcWaits luck i s (at l) h = perform-PcWaits s (prog.action luck l s.mem) (ok luck l s.mem)
    exec-PcWaits luck i s (recheck q pred l) h = suspend_if-PcWaits i s q (pred s.mem) l h.1
    exec-PcWaits luck i s (parked q l) h = elim (Bool-cases (tbb.is_suspended s.world i)) [
      | inl e ↦ rw e h
      | inr e ↦ rw e tt
    ]
    exec-PcWaits luck i s (resuming q [] l) h = tt
    exec-PcWaits luck i s (resuming q (t ∷ ts) l) h = tt

    update-PcWaits :
        (pc : ℕ → Pc M L) (i j : ℕ) (p : Pc M L)
        → PcWaits p
        → PcWaits (pc j)
        → PcWaits (update pc i p j)
    update-PcWaits pc i j p h g = elim (Bool-cases (i == j)) [ inl e ↦ rw e h | inr e ↦ rw e g ]

    pub Reach-PcWaits :
        {n : ℕ} {s t : System tbb M L}
        → ((j : ℕ) → PcWaits (s.pc j))
        → Reach tbb prog n s t
        → (j : ℕ) → PcWaits (t.pc j)
    unfolding step
    Reach-PcWaits h here j = h j
    Reach-PcWaits h (next {t} r (run luck i lt a)) j =
        update-PcWaits t.pc i j _ (exec-PcWaits luck i t.state (t.pc i) (Reach-PcWaits h r i))
          (Reach-PcWaits h r j)
    Reach-PcWaits h (next {t} r (call i l l' lt e c)) j =
        update-PcWaits t.pc i j (at l') tt (Reach-PcWaits h r j)
