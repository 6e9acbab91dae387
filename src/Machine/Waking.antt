-- ===== src/Machine/Waking.antt =====
-- Wake-ups: tasks that wait on the queue against tasks on their way to the shared variables, or on
-- their way to wake one, and against what these variables have to offer.
use coopsync_tbb.Base.{
  ℕ, ◌+◌, ◌<◌, ◌≤◌, ◌≡◌, ◌⊎◌, refl, inl, inr, Bool, true, false, [], ◌∷◌, arith, if◌then◌else◌,
  update, take, drop-nil, drop-nil_or_length-take, drop, total, of_total_pos, count, dec_lt,
}
use coopsync_tbb.Tbb.{Tbb}
use coopsync_tbb.Machine.{
  QueueId, primary, Action, access, wait_if, resume_one, resume_n, resume_all, Pc, at, recheck,
  parked, resuming, Program, State, System, perform, suspend_if, exec, step, run, call, Permitted,
  set_queue, Reach, here, next, initial,
}
use coopsync_tbb.Machine.Waits.{ActionWaits, PcWaits, parked_on_primary, Reach-PcWaits}
use coopsync_tbb.Machine.Occupancy.{held, Accounts}
use coopsync_tbb.Machine.Accounts.{Reach-Accounts, held-weight, initial-Accounts}
use coopsync_tbb.Machine.Wakes.{
  Weights, wakes, total_wakes, total_wakes_change, of_total_wakes, total_wakes-resume,
}

module _ {M L : Type 0} (avail : M → ℕ) (power : L → ℕ) where
  -- An action may add to what is on offer only as much as it adds to its own weight.
  abbrev pub Offers : L → M → Action M L → Type 0
  Offers l m (access m' l') = avail m' + power l ≤ avail m + power l'
  Offers l m (wait_if q pred l') = (power l ≤ 1) × (power l ≤ power l')
  Offers l m (resume_one q f) = (power l ≤ 1) × (q ≡ primary)
  Offers l m (resume_n q k l') = (power l ≤ k) × (q ≡ primary)
  Offers l m (resume_all q l') = q ≡ primary

  -- A task waits only while nothing is on offer.
  abbrev pub WaitsForOffer : QueueId → (M → Bool × M) → L → Type 0
  WaitsForOffer q pred l = (m : M) → ((pred m).1 ≡ m) × (((pred m).0 ≡ true) → avail m ≡ 0)

  -- A task waits on the one queue, and looks again when it is resumed.
  abbrev pub Retries : QueueId → L → Type 0
  Retries q l = (q ≡ primary) × (1 ≤ power l)

  -- The tasks that will look at the variables, or wake one that does.
  abbrev pub offer : Weights L
  offer = record { power = power; looking = 1; lane = λ q. true }

  pub record Wakeful (prog : Program M L) : Type 0 where
    pub acts : (luck : Bool) (l : L) (m : M) → prog.Allowed l m → Offers l m (prog.action luck l m)
    pub waits :
        (luck : Bool) (l : L) (m : M) → ActionWaits WaitsForOffer Retries (prog.action luck l m)
    pub calls : (l l' : L) → prog.Call l l' → power l ≤ power l'

  module _ (tbb : Tbb) (prog : Program M L) (n : ℕ) where
    -- The claim on one state, and on one step of a task.
    abbrev pub Served : State tbb M L → (ℕ → Pc M L) → Type 0
    Served s pc = (s.queue primary ≡ []) ⊎ (avail s.mem ≤ total_wakes tbb offer n s pc)

    perform-Served :
        (i : ℕ) (s : State tbb M L) (pc : ℕ → Pc M L) (l : L) (a : Action M L)
        → i < n
        → pc i ≡ at l
        → Offers l s.mem a
        → ActionWaits WaitsForOffer Retries a
        → Served s pc
        → Served (perform tbb s a).0 (update pc i (perform tbb s a).1)
    unfolding perform
    perform-Served i s pc l (access m l') lt e o w h =
        let change =
          total_wakes_change tbb offer n i s (record s { mem = m }) pc (at l') lt (λ j ne. refl) in
        ground arith
    perform-Served i s pc l (wait_if q pred l') lt e o w h =
        let same : (pred s.mem).1 ≡ s.mem = (w.0 s.mem).0 in
        let p : Pc M L = if (pred s.mem).0 then recheck q pred l' else at l' in
        let change =
          total_wakes_change tbb offer n i s (record s { mem = (pred s.mem).1 }) pc p lt
            (λ j ne. refl) in
        ground arith
    perform-Served i s pc l (resume_one q f) lt e o w h =
        let s' : State tbb M L = record s { queue = set_queue s.queue q (drop 1 (s.queue q)) } in
        let p : Pc M L = elim (s.queue q) [
          | [] ↦ at (f false)
          | t ∷ _ ↦ resuming q (t ∷ []) (f true)
        ] in
        let change = total_wakes_change tbb offer n i s s' pc p lt (λ j ne. refl) in ground arith
    perform-Served i s pc l (resume_n q k l') lt e o w h =
        let s' : State tbb M L = record s { queue = set_queue s.queue q (drop k (s.queue q)) } in
        let p : Pc M L = resuming q (take k (s.queue q)) l' in
        let change = total_wakes_change tbb offer n i s s' pc p lt (λ j ne. refl) in
        ground (arith, drop-nil_or_length-take k (s.queue q), drop-nil {A = ℕ} k)
    perform-Served i s pc l (resume_all q l') lt e o w h = inl (ground arith)

    suspend_if-Served :
        (i : ℕ) (s : State tbb M L) (pc : ℕ → Pc M L) (q : QueueId) (pred : M → Bool × M) (l : L)
        → i < n
        → pc i ≡ recheck q pred l
        → WaitsForOffer q pred l
        → Retries q l
        → Served s pc
        → Served
            (suspend_if tbb i s q (pred s.mem) l).0
            (update pc i (suspend_if tbb i s q (pred s.mem) l).1)
    unfolding suspend_if
    suspend_if-Served i s pc q pred l lt e w r h = go (pred s.mem) (w s.mem).0 (w s.mem).1
      where
        go :
            (r : Bool × M)
            → r.1 ≡ s.mem
            → (r.0 ≡ true → avail s.mem ≡ 0)
            → Served (suspend_if tbb i s q r l).0 (update pc i (suspend_if tbb i s q r l).1)
        go (true, m) same none = inr (ground (arith, none refl))
        go (false, m) same none =
            let s' : State tbb M L = record s {
              mem = m;
              world = tbb.resume (tbb.suspend s.world i) i;
            } in
            let change = total_wakes_change tbb offer n i s s' pc (at l) lt (λ j ne. ground (
              arith,
              tbb.is_suspended-suspend s.world i j,
              tbb.is_suspended-resume (tbb.suspend s.world i) i j,
            )) in
            ground arith

    exec-Served :
        (luck : Bool) (i : ℕ) (s : State tbb M L) (pc : ℕ → Pc M L) (p : Pc M L)
        → Wakeful prog
        → Accounts tbb n (record { state = s; pc = pc })
        → i < n
        → pc i ≡ p
        → Permitted tbb prog p s.mem
        → PcWaits WaitsForOffer Retries p
        → Served s pc
        → Served (exec tbb prog luck i s p).0 (update pc i (exec tbb prog luck i s p).1)
    unfolding exec
    exec-Served luck i s pc (at l) wf acc lt e a w h =
        perform-Served i s pc l (prog.action luck l s.mem) lt e (wf.acts luck l s.mem a)
          (wf.waits luck l s.mem) h
    exec-Served luck i s pc (recheck q pred l) wf acc lt e a w h =
        suspend_if-Served i s pc q pred l lt e w.0 w.1 h
    exec-Served luck i s pc (parked q l) wf acc lt e a w h =
        let p : Pc M L = if tbb.is_suspended s.world i then parked q l else at l in
        let change = total_wakes_change tbb offer n i s s pc p lt (λ j ne. refl) in ground arith
    exec-Served luck i s pc (resuming q [] l) wf acc lt e a w h =
        let change = total_wakes_change tbb offer n i s s pc (at l) lt (λ j ne. refl) in
        ground arith
    exec-Served luck i s pc (resuming q (t ∷ ts) l) wf acc lt e a w h =
        let one =
          held-weight tbb prog n (record { state = s; pc = pc }) i t q acc lt (ground arith) in
        let same = total_wakes-resume tbb offer n i t ts q l s pc lt acc e one in ground arith

    -- In every reachable state the queue is empty or the waiting tasks are provided for.
    pub Reach-Served :
        {s t : System tbb M L}
        → Wakeful prog
        → Accounts tbb n s
        → ((j : ℕ) → PcWaits WaitsForOffer Retries (s.pc j))
        → Served s.state s.pc
        → Reach tbb prog n s t
        → Served t.state t.pc
    unfolding step
    Reach-Served wf acc ws h here = h
    Reach-Served wf acc ws h (next {t} r (run luck i lt a)) =
        exec-Served luck i t.state t.pc (t.pc i) wf (Reach-Accounts tbb prog n acc r) lt refl a
          (Reach-PcWaits WaitsForOffer Retries tbb prog wf.waits ws r i)
          (Reach-Served wf acc ws h r)
    Reach-Served wf acc ws h (next {t} r (call i l l' lt e c)) =
        let more = wf.calls l l' c in
        let change =
          total_wakes_change tbb offer n i t.state t.state t.pc (at l') lt (λ j ne. refl) in
        let before = Reach-Served wf acc ws h r in ground arith

    held_pos-wakes :
        (i : ℕ) (p : Pc M L) (b : Bool) → 0 < count i (held primary p) → 0 < wakes offer p b
    held_pos-wakes i (resuming primary (t ∷ ts) l) b h = omega arith
    held_pos-wakes i _ b h = absurd (ground arith)

    -- While a task is suspended and something is on offer, some task is on its way.
    pub waker :
        (m : M) (start : ℕ → L) (w : tbb.World) {t : System tbb M L}
        → Wakeful prog
        → ((j : ℕ) → tbb.is_suspended w j ≡ false)
        → Reach tbb prog n (initial tbb prog m start w) t
        → (i : ℕ) → tbb.is_suspended t.state.world i ≡ true
        → 0 < avail t.state.mem
        → (j : ℕ) × (j < n) × (0 < wakes offer (t.pc j) (tbb.is_suspended t.state.world j))
    waker m start w {t} wf quiet r i sus some =
        let acc = Reach-Accounts tbb prog n (initial-Accounts tbb prog n m start w quiet) r in
        let served =
          Reach-Served wf (initial-Accounts tbb prog n m start w quiet) (λ j. tt) (inl refl) r in
        let lands = Reach-PcWaits WaitsForOffer Retries tbb prog wf.waits (λ j. tt) r i in
        let held_by : ℕ → ℕ = λ j. count i (held primary (t.pc j)) in
        let balanced = acc.balanced primary i in
        let parks = acc.parks i sus in
        elim (dec_lt 0 (total n held_by)) [
          | yes pos ↦
              let (j, lt, h) = of_total_pos n held_by pos in
              (j, lt, held_pos-wakes i (t.pc j) (tbb.is_suspended t.state.world j) h)
          | no none ↦
              let home =
                parked_on_primary WaitsForOffer Retries (t.pc i) (λ q l h. h.0) parks lands in
              of_total_wakes tbb offer n t.state t.pc (ground arith)
        ]
