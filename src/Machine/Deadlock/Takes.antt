-- ===== src/Machine/Deadlock/Takes.antt =====
-- In every reachable state with a suspended task and something to take, the tasks can take it.
use coopsync_tbb.Base.{
  ℕ, zero, suc, ◌∙◌, ◌<◌, ◌≡◌, refl, inl, inr, ap, Bool, true, false, List, [], ◌∷◌, arith, take,
  subst, total, of_total_pos, count, dec_lt,
}
use coopsync_tbb.Tbb.{Tbb}
use coopsync_tbb.Machine.{
  QueueId, primary, secondary, Action, access, wait_if, resume_one, resume_n, resume_all, Pc, at,
  recheck, parked, resuming, Program, System, step, run, Permitted, Reach, next, initial,
}
use coopsync_tbb.Machine.Waits.{PcWaits, parked_on_primary, Reach-PcWaits}
use coopsync_tbb.Machine.Occupancy.{held, parked_on}
use coopsync_tbb.Machine.Accounts.{Reach-Accounts, held-weight, initial-Accounts}
use coopsync_tbb.Machine.Steps.{holding, left, takes_n, takes_one}
use coopsync_tbb.Machine.Wakes.{wakes}
use coopsync_tbb.Machine.Waking.{Wakeful, WaitsForOffer, offer, waker}
use coopsync_tbb.Machine.Deadlock.{ResumesSome, InLoop, Eager, Taken}
use coopsync_tbb.Machine.Deadlock.Loop.{
  earlier, loop_takes, recheck_takes, awake_takes, resuming_takes,
}

module _ {M L : Type 0} (avail : M → ℕ) (power : L → ℕ) (eager : L → Bool) (rank : L → M → ℕ)
    (Ready : M → Type 0) (luck : Bool) (tbb : Tbb) (prog : Program M L) (n : ℕ)
    (ok : Eager avail power eager rank Ready luck prog) where
  parked_at : (q : QueueId) (p : Pc M L) → parked_on q p ≡ true → (l : L) × (p ≡ parked q l)
  parked_at primary (parked primary l) h = (l, refl)
  parked_at secondary (parked secondary l) h = (l, refl)
  parked_at primary (parked secondary l) h = absurd (ground arith)
  parked_at secondary (parked primary l) h = absurd (ground arith)
  parked_at primary (at l) h = absurd (ground arith)
  parked_at secondary (at l) h = absurd (ground arith)
  parked_at primary (recheck q pred l) h = absurd (ground arith)
  parked_at secondary (recheck q pred l) h = absurd (ground arith)
  parked_at primary (resuming q ts l) h = absurd (ground arith)
  parked_at secondary (resuming q ts l) h = absurd (ground arith)

  holds_first :
      (q : QueueId) (t : ℕ) (ts : List ℕ) (l : L)
      → 0 < count t (held {M = M} q (resuming q (t ∷ ts) l))
  holds_first primary t ts l = ground arith
  holds_first secondary t ts l = ground arith

  module _ (m : M) (start : ℕ → L) (w : tbb.World) (wakeful : Wakeful avail power prog)
      (quiet : (t : ℕ) → tbb.is_suspended w t ≡ false) where
    -- A task that holds another one resumes it, and that one takes something.
    holder_takes :
        (s : System tbb M L) (j : ℕ) (q : QueueId) (t : ℕ) (ts : List ℕ) (l : L)
        → Reach tbb prog n (initial tbb prog m start w) s
        → j < n
        → s.pc j ≡ resuming q (t ∷ ts) l
        → Ready s.state.mem
        → Taken avail tbb prog n s
    holder_takes s j q t ts l r lt e some =
        let acc = Reach-Accounts tbb prog n (initial-Accounts tbb prog n m start w quiet) r in
        let one = held-weight tbb prog n s j t q acc lt (rw e (holds_first q t ts l)) in
        let sus : tbb.is_suspended s.state.world t ≡ true = ground arith in
        let (l', e') = parked_at q (s.pc t) (ground arith) in
        let lands : InLoop eager q l' =
          subst (PcWaits (WaitsForOffer avail power) (InLoop eager)) e' (
            Reach-PcWaits (WaitsForOffer avail power) (InLoop eager) tbb prog ok.waits (λ i. tt) r
              t) in
        resuming_takes avail power eager rank Ready luck tbb prog n ok s j q t ts l q l' lt e
          (acc.in_range t sus) e' lands.1 some

    -- A task that is about to resume a waiter.
    resumer_takes :
        (s : System tbb M L) (j : ℕ) (l : L) (t : ℕ) (ts : List ℕ) (a : Action M L)
        → Reach tbb prog n (initial tbb prog m start w) s
        → j < n
        → s.pc j ≡ at l
        → s.state.queue primary ≡ t ∷ ts
        → Ready s.state.mem
        → prog.Allowed l s.state.mem
        → prog.action luck l s.state.mem ≡ a
        → ResumesSome a
        → Taken avail tbb prog n s
    resumer_takes s j l t ts (resume_one q f) r lt e full some allowed does h =
        let (there, kept) = takes_one tbb prog luck j s l q f t ts e does (rw h full) in
        let a : Permitted tbb prog (s.pc j) s.state.mem = rw e allowed in
        earlier avail power eager rank Ready luck tbb prog n ok s j lt a kept (
          holder_takes (step tbb prog luck j s) j q t [] (f true) (next r (run luck j lt a)) lt
            there (rw kept some))
    resumer_takes s j l t ts (resume_n q zero l') r lt e full some allowed does (h, pos) =
        absurd (omega arith)
    resumer_takes s j l t ts (resume_n q (suc k) l') r lt e full some allowed does (h, pos) =
        let (there, kept) = takes_n tbb prog luck j s l q (suc k) l' e does in
        let a : Permitted tbb prog (s.pc j) s.state.mem = rw e allowed in
        let some_taken : take (suc k) (s.state.queue q) ≡ t ∷ take k ts = rw (h, full) refl in
        earlier avail power eager rank Ready luck tbb prog n ok s j lt a kept (
          holder_takes (step tbb prog luck j s) j q t (take k ts) l' (next r (run luck j lt a)) lt
            (there ∙ ap (λ us. resuming q us l') some_taken) (rw kept some))
    resumer_takes s j l t ts (access m' l') r lt e full some allowed does h = absurd h
    resumer_takes s j l t ts (wait_if q pred l') r lt e full some allowed does h = absurd h
    resumer_takes s j l t ts (resume_all q l') r lt e full some allowed does h = absurd h

    at_takes :
        (s : System tbb M L) (j : ℕ) (l : L) (t : ℕ) (ts : List ℕ)
        → Reach tbb prog n (initial tbb prog m start w) s
        → j < n
        → s.pc j ≡ at l
        → 0 < power l
        → s.state.queue primary ≡ t ∷ ts
        → Ready s.state.mem
        → Taken avail tbb prog n s
    at_takes s j l t ts r lt e strong full some = elim (ok.resumes l s.state.mem strong) [
      | inl loop ↦ loop_takes avail power eager rank Ready luck tbb prog n ok s j l lt e loop some
      | inr (allowed, h) ↦
          resumer_takes s j l t ts (prog.action luck l s.state.mem) r lt e full some allowed refl h
    ]

    -- A task that counts as a wake-up takes something, or another one that it resumes does.
    wake_takes :
        (s : System tbb M L) (j : ℕ) (p : Pc M L) (t : ℕ) (ts : List ℕ)
        → Reach tbb prog n (initial tbb prog m start w) s
        → j < n
        → s.pc j ≡ p
        → 0 < wakes (offer avail power) p (tbb.is_suspended s.state.world j)
        → PcWaits (WaitsForOffer avail power) (InLoop eager) p
        → s.state.queue primary ≡ t ∷ ts
        → Ready s.state.mem
        → Taken avail tbb prog n s
    wake_takes s j (at l) t ts r lt e pos lands full some = at_takes s j l t ts r lt e pos full some
    wake_takes s j (recheck q pred l) t ts r lt e pos lands full some =
        recheck_takes avail power eager rank Ready luck tbb prog n ok s j q pred l lt e lands.0
          lands.1 some
    wake_takes s j (parked q l) t ts r lt e pos lands full some =
        awake_takes avail power eager rank Ready luck tbb prog n ok s j q l lt e (ground arith)
          lands.1 some
    wake_takes s j (resuming q [] l) t ts r lt e pos lands full some =
        let (there, queue, kept) = left tbb prog luck j s q l e in
        let a : Permitted tbb prog (s.pc j) s.state.mem = rw e tt in
        earlier avail power eager rank Ready luck tbb prog n ok s j lt a kept (
          at_takes (step tbb prog luck j s) j l t ts (next r (run luck j lt a)) lt there
            (ground arith) (rw queue full) (rw kept some))
    wake_takes s j (resuming q (u ∷ us) l) t ts r lt e pos lands full some =
        holder_takes s j q u us l r lt e some

    filled : (i : ℕ) (us : List ℕ) → 0 < count i us → (t : ℕ) × (ts : List ℕ) × (us ≡ t ∷ ts)
    filled i [] pos = absurd (omega arith)
    filled i (t ∷ ts) pos = (t, ts, refl)

    -- While a task is suspended and something is on offer, the tasks that are in the code can run
    -- on until something is taken.
    pub takes :
        {s : System tbb M L}
        → Reach tbb prog n (initial tbb prog m start w) s
        → (i : ℕ) → tbb.is_suspended s.state.world i ≡ true
        → Ready s.state.mem
        → Taken avail tbb prog n s
    takes {s} r i sus some =
        let acc = Reach-Accounts tbb prog n (initial-Accounts tbb prog n m start w quiet) r in
        let balanced = acc.balanced primary i in
        let parks = acc.parks i sus in
        let held_by : ℕ → ℕ = λ j. count i (held primary (s.pc j)) in
        let landed =
          Reach-PcWaits (WaitsForOffer avail power) (InLoop eager) tbb prog ok.waits (λ j. tt) r in
        elim (dec_lt 0 (total n held_by)) [
          | yes pos ↦
              let (j, lt, h) = of_total_pos n held_by pos in
              let (q, us, l, e, mine) = holding primary (s.pc j) i h in
              let (t, ts, more) = filled i us mine in
              holder_takes s j q t ts l r lt (e ∙ ap (λ vs. resuming q vs l) more) some
          | no none ↦
              let home =
                parked_on_primary (WaitsForOffer avail power) (InLoop eager) (s.pc i) (λ q l h. h.0)
                  parks (landed i) in
              let (t, ts, full) = filled i (s.state.queue primary) (ground arith) in
              let (j, lt, pos) =
                waker avail power tbb prog n m start w wakeful quiet r i sus
                  (ok.offers s.state.mem some) in
              wake_takes s j (s.pc j) t ts r lt refl pos (landed j) full some
        ]
