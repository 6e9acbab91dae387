-- ===== src/Machine/Deadlock/Loop.antt =====
-- A task that is awake in its loop takes something, by a run of its own.
use coopsync_tbb.Base.{
  ℕ, zero, suc, ◌∙◌, ◌<◌, ◌≡◌, refl, inl, inr, sym, ap, Bool, Bool-cases, true, false, List, ◌∷◌,
  arith, ◌==◌,
}
use coopsync_tbb.Tbb.{Tbb}
use coopsync_tbb.Machine.{
  QueueId, Action, access, wait_if, resume_one, resume_n, resume_all, at, recheck, parked, resuming,
  Program, System, step, Permitted,
}
use coopsync_tbb.Machine.Waits.{ActionWaits}
use coopsync_tbb.Machine.Steps.{resumed, accesses, goes_past, goes_on, wakes_up, elsewhere}
use coopsync_tbb.Machine.Waking.{WaitsForOffer}
use coopsync_tbb.Machine.Deadlock.{stays, goes, Presses, InLoop, Eager, Taken}

module _ {M L : Type 0} (avail : M → ℕ) (power : L → ℕ) (eager : L → Bool) (rank : L → M → ℕ)
    (Ready : M → Type 0) (luck : Bool) (tbb : Tbb) (prog : Program M L) (n : ℕ)
    (ok : Eager avail power eager rank Ready luck prog) where
  -- A task does not wait while something is on offer.
  declined : {m : M} (b : Bool) → (b ≡ true → avail m ≡ 0) → 0 < avail m → b ≡ false
  declined false none some = refl
  declined true none some = absurd (omega (arith, none refl))

  pub earlier :
      (s : System tbb M L) (j : ℕ)
      → j < n
      → Permitted tbb prog (s.pc j) s.state.mem
      → (step tbb prog luck j s).state.mem ≡ s.state.mem
      → Taken avail tbb prog n (step tbb prog luck j s)
      → Taken avail tbb prog n s
  earlier s j lt a same (t, r, less) = (t, goes luck j lt a r, rw (sym (ap avail same)) less)

  -- One action of a task in its loop, if from where it leads something is taken.
  act_takes :
      (s : System tbb M L) (j : ℕ) (l : L) (a : Action M L)
      → j < n
      → s.pc j ≡ at l
      → Ready s.state.mem
      → prog.Allowed l s.state.mem
      → prog.action luck l s.state.mem ≡ a
      → ((s' : System tbb M L) (l' : L)
          → s'.pc j ≡ at l'
          → s'.state.mem ≡ s.state.mem
          → eager l' ≡ true
          → rank l' s.state.mem < rank l s.state.mem
          → Taken avail tbb prog n s')
      → Presses avail eager rank l s.state.mem a
      → ActionWaits (WaitsForOffer avail power) (InLoop eager) a
      → Taken avail tbb prog n s
  act_takes s j l (access m l') lt e some allowed does onwards (inl less) w =
      let (there, mem) = accesses tbb prog luck j s l m l' e does in
      (step tbb prog luck j s, goes luck j lt (rw e allowed) stays, rw mem less)
  act_takes s j l (access m l') lt e some allowed does onwards (inr (same, (loop, down))) w =
      let (there, mem) = accesses tbb prog luck j s l m l' e does in
      let kept : (step tbb prog luck j s).state.mem ≡ s.state.mem = mem ∙ same in
      earlier s j lt (rw e allowed) kept (onwards (step tbb prog luck j s) l' there kept loop down)
  act_takes s j l (wait_if q pred l') lt e some allowed does onwards (loop, down) w =
      let over = declined (pred s.state.mem).0 (w.0 s.state.mem).1 (ok.offers s.state.mem some) in
      let (there, mem) = goes_past tbb prog luck j s l q pred l' e does over in
      let kept : (step tbb prog luck j s).state.mem ≡ s.state.mem = mem ∙ (w.0 s.state.mem).0 in
      earlier s j lt (rw e allowed) kept (onwards (step tbb prog luck j s) l' there kept loop down)
  act_takes s j l (resume_one q f) lt e some allowed does onwards h w = absurd h
  act_takes s j l (resume_n q c l') lt e some allowed does onwards h w = absurd h
  act_takes s j l (resume_all q l') lt e some allowed does onwards h w = absurd h

  -- A task that is awake in its loop takes something.
  eager_takes :
      (k : ℕ) (s : System tbb M L) (j : ℕ) (l : L)
      → j < n
      → s.pc j ≡ at l
      → eager l ≡ true
      → Ready s.state.mem
      → rank l s.state.mem < k
      → Taken avail tbb prog n s
  eager_takes zero s j l lt e loop some low = absurd (omega arith)
  eager_takes (suc k) s j l lt e loop some low =
      let (allowed, presses) = ok.presses l s.state.mem loop some in
      act_takes s j l (prog.action luck l s.state.mem) lt e some allowed refl
        (λ s' l' there kept loop' down.
          eager_takes k s' j l' lt there loop' (rw kept some) (rw kept (omega arith)))
        presses (ok.waits luck l s.state.mem)

  pub loop_takes :
      (s : System tbb M L) (j : ℕ) (l : L)
      → j < n
      → s.pc j ≡ at l
      → eager l ≡ true
      → Ready s.state.mem
      → Taken avail tbb prog n s
  loop_takes s j l lt e loop some =
      eager_takes (suc (rank l s.state.mem)) s j l lt e loop some (omega arith)

  pub recheck_takes :
      (s : System tbb M L) (j : ℕ) (q : QueueId) (pred : M → Bool × M) (l : L)
      → j < n
      → s.pc j ≡ recheck q pred l
      → WaitsForOffer avail power q pred l
      → InLoop eager q l
      → Ready s.state.mem
      → Taken avail tbb prog n s
  recheck_takes s j q pred l lt e w lands some =
      let over = declined (pred s.state.mem).0 (w s.state.mem).1 (ok.offers s.state.mem some) in
      let (there, mem) = goes_on tbb prog luck j s q pred l e over in
      let kept : (step tbb prog luck j s).state.mem ≡ s.state.mem = mem ∙ (w s.state.mem).0 in
      earlier s j lt (rw e tt) kept
        (loop_takes (step tbb prog luck j s) j l lt there lands.1 (rw kept some))

  -- A task that has been resumed takes something.
  pub awake_takes :
      (s : System tbb M L) (j : ℕ) (q : QueueId) (l : L)
      → j < n
      → s.pc j ≡ parked q l
      → tbb.is_suspended s.state.world j ≡ false
      → eager l ≡ true
      → Ready s.state.mem
      → Taken avail tbb prog n s
  awake_takes s j q l lt e awake loop some =
      let (there, kept) = wakes_up tbb prog luck j s q l e awake in
      earlier s j lt (rw e tt) kept
        (loop_takes (step tbb prog luck j s) j l lt there loop (rw kept some))

  -- A task that is about to resume another one, which then takes something.
  pub resuming_takes :
      (s : System tbb M L) (j : ℕ) (q : QueueId) (t : ℕ) (ts : List ℕ) (l : L) (p : QueueId)
      (l' : L)
      → j < n
      → s.pc j ≡ resuming q (t ∷ ts) l
      → t < n
      → s.pc t ≡ parked p l'
      → eager l' ≡ true
      → Ready s.state.mem
      → Taken avail tbb prog n s
  resuming_takes s j q t ts l p l' lt e t_lt e' loop some =
      let other : (j == t) ≡ false = elim (Bool-cases (j == t)) [
        | inl same ↦ absurd (ground arith)
        | inr differs ↦ differs
      ] in
      let (there, world, queue, kept) = resumed tbb prog luck j s q t ts l e in
      earlier s j lt (rw e tt) kept (
        awake_takes (step tbb prog luck j s) t p l' t_lt (elsewhere tbb prog luck j s t other ∙ e')
          (rw world (ground (arith, tbb.is_suspended-resume s.state.world t t))) loop
          (rw kept some))
