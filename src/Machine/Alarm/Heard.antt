-- ===== src/Machine/Alarm/Heard.antt =====
-- In every reachable state, a task that stands in the lane has to wait, or the alarm sounds.
use coopsync_tbb.Base.{
  ℕ, ◌<◌, ◌≡◌, ◌⊎◌, inl, inr, ap, sym, subst, ◌∙◌, Bool-cases, Bool, true, false, [], ◌∷◌, ◌++◌,
  arith, ◌==◌, update, count, drop, total, of_total_pos, dec_lt,
}
use coopsync_tbb.Tbb.{Tbb}
use coopsync_tbb.Machine.{
  QueueId, primary, Action, access, wait_if, resume_one, resume_n, resume_all, Pc, at, recheck,
  parked, resuming, place, Program, State, System, perform, suspend_if, exec, initial, Reach,
  set_queue,
}
use coopsync_tbb.Machine.Occupancy.{held, is_parked, parked_on, Accounts}
use coopsync_tbb.Machine.Accounts.{initial-Accounts, Reach-Accounts}
use coopsync_tbb.Machine.Waits.{ActionWaits, parked_on_primary, Reach-PcWaits}
use coopsync_tbb.Machine.Induction.{RunKeeps, CallKeeps, Reach-ind}
use coopsync_tbb.Machine.Alarm.Lane.{
  same_queue, same_queue_refl, dropped, emptied, elsewhere, appended,
}
use coopsync_tbb.Machine.Alarm.{sounds, OnPrimary, Alerts, WaitsFor, Alarmed}

module _ {M L : Type 0} (lane : QueueId) (waiting : L → M → Bool) (alarm : L → Bool) where
  waits_on :
      (q : QueueId) (pred : M → Bool × M) (l : L) (m : M) (k : L)
      → (pred m ≡ (waiting l m, m))
        ⊎ ((same_queue lane q ≡ false)
            × ((k : L) → waiting k m ≡ true → waiting k (pred m).1 ≡ true))
      → waiting k m ≡ true
      → waiting k (pred m).1 ≡ true
  waits_on q pred l m k (inl e) g = rw e g
  waits_on q pred l m k (inr w) g = w.1 k g

  module _ (Lands : QueueId → L → Type 0) (tbb : Tbb) (prog : Program M L) (n : ℕ) where
    -- If task `t` stands in the queue, it has to wait, or the alarm sounds.
    abbrev Heard : State tbb M L → (ℕ → Pc M L) → ℕ → Type 0
    Heard s pc t =
        (count t (s.queue lane) ≡ 0)
        ⊎ ((waiting (place (pc t)) s.mem ≡ true)
            ⊎ ((j : ℕ) × (j < n) × (sounds lane alarm (pc j) ≡ true)))

    -- Task `i` stands nowhere in the queue and sounds no alarm, and what others wait for stays.
    Heard-update :
        (s s' : State tbb M L) (pc : ℕ → Pc M L) (i t : ℕ) (p' : Pc M L)
        → count i (s.queue lane) ≡ 0
        → sounds lane alarm (pc i) ≡ false
        → (count t (s.queue lane) ≡ 0 → count t (s'.queue lane) ≡ 0)
        → ((k : L) → waiting k s.mem ≡ true → waiting k s'.mem ≡ true)
        → Heard s pc t
        → Heard s' (update pc i p') t
    Heard-update s s' pc i t p' none quiet sub stays (inl h) = inl (sub h)
    Heard-update s s' pc i t p' none quiet sub stays (inr (inl h)) = elim (Bool-cases (i == t)) [
      | inl here ↦ inl (sub (ground arith))
      | inr other ↦ inr (inl (rw other (stays (place (pc t)) h)))
    ]
    Heard-update s s' pc i t p' none quiet sub stays (inr (inr (j, lt, h))) =
        inr (inr (j, lt, ground arith))

    -- The same of a task that sounds the alarm afterwards, if it does before.
    Heard-on :
        (s s' : State tbb M L) (pc : ℕ → Pc M L) (i t : ℕ) (p' : Pc M L)
        → i < n
        → count i (s.queue lane) ≡ 0
        → (sounds lane alarm (pc i) ≡ true → sounds lane alarm p' ≡ true)
        → (count t (s.queue lane) ≡ 0 → count t (s'.queue lane) ≡ 0)
        → ((k : L) → waiting k s.mem ≡ true → waiting k s'.mem ≡ true)
        → Heard s pc t
        → Heard s' (update pc i p') t
    Heard-on s s' pc i t p' lt none on sub stays h = elim (Bool-cases (sounds lane alarm (pc i))) [
      | inl loud ↦ inr (inr (i, lt, ground (arith, on loud)))
      | inr quiet ↦ Heard-update s s' pc i t p' none quiet sub stays h
    ]

    absent :
        (s : State tbb M L) (pc : ℕ → Pc M L) (i : ℕ)
        → Accounts tbb n (record { state = s; pc = pc })
        → is_parked (pc i) ≡ false
        → count i (s.queue lane) ≡ 0
    absent s pc i acc h = ground (arith, acc.balanced lane i, acc.parks i)

    perform-Heard :
        (i t : ℕ) (s : State tbb M L) (pc : ℕ → Pc M L) (l : L) (a : Action M L)
        → i < n
        → pc i ≡ at l
        → count i (s.queue lane) ≡ 0
        → Alerts lane waiting alarm l s.mem a
        → ActionWaits (WaitsFor lane waiting alarm) Lands a
        → Heard s pc t
        → Heard (perform tbb s a).0 (update pc i (perform tbb s a).1) t
    unfolding perform
    perform-Heard i t s pc l (access m l') lt e none (inl alerts) w h =
        inr (inr (i, lt, ground arith))
    perform-Heard i t s pc l (access m l') lt e none (inr (quiet, stays)) w h =
        Heard-update s (record s { mem = m }) pc i t (at l') none (ground arith) (λ z. z) stays h
    perform-Heard i t s pc l (wait_if q pred l') lt e none o w h =
        Heard-update s (record s { mem = (pred s.mem).1 }) pc i t _ none (ground arith) (λ z. z)
          (λ k g. waits_on q pred l' s.mem k (w.0 s.mem) g) h
    perform-Heard i t s pc l (resume_one q f) lt e none quiet w h =
        Heard-update s (record s { queue = set_queue s.queue q (drop 1 (s.queue q)) }) pc i t _ none
          (ground arith) (dropped s.queue lane q t 1) (λ k g. g) h
    perform-Heard i t s pc l (resume_n q c l') lt e none quiet w h =
        Heard-update s (record s { queue = set_queue s.queue q (drop c (s.queue q)) }) pc i t _ none
          (ground arith) (dropped s.queue lane q t c) (λ k g. g) h
    perform-Heard i t s pc l (resume_all q l') lt e none (inl mine) w h =
        inl (emptied s.queue lane q t (rw mine (same_queue_refl lane)))
    perform-Heard i t s pc l (resume_all q l') lt e none (inr goes_on) w h =
        elim (Bool-cases (same_queue lane q)) [
          | inl mine ↦ inl (emptied s.queue lane q t mine)
          | inr other ↦ elim (Bool-cases (alarm l)) [
            | inl loud ↦ inr (inr (i, lt, ground (arith, goes_on loud)))
            | inr quiet ↦
                Heard-update s (record s { queue = set_queue s.queue q [] }) pc i t _ none
                  (ground arith) (elsewhere s.queue lane q t [] other) (λ k g. g) h
          ]
        ]

    suspend_if-Heard :
        (i t : ℕ) (s : State tbb M L) (pc : ℕ → Pc M L) (q : QueueId) (l : L) (r : Bool × M)
        → count i (s.queue lane) ≡ 0
        → sounds lane alarm (pc i) ≡ false
        → (r ≡ (waiting l s.mem, s.mem))
          ⊎ ((same_queue lane q ≡ false)
              × ((k : L) → waiting k s.mem ≡ true → waiting k r.1 ≡ true))
        → Heard s pc t
        → Heard (suspend_if tbb i s q r l).0 (update pc i (suspend_if tbb i s q r l).1) t
    unfolding suspend_if
    suspend_if-Heard i t s pc q l (true, m) none quiet (inl e) h =
        let same : m ≡ s.mem = ap (λ r. r.1) e in
        elim (Bool-cases (i == t)) [
          | inl here ↦ inr (inl (rw (here, same) (sym (ap (λ r. r.0) e))))
          | inr other ↦
              Heard-update s (suspend_if tbb i s q (true, m) l).0 pc i t _ none quiet
                (appended s.queue lane q t i (ground arith)) (λ k g. rw same g) h
        ]
    suspend_if-Heard i t s pc q l (true, m) none quiet (inr (apart, stays)) h =
        Heard-update s (suspend_if tbb i s q (true, m) l).0 pc i t _ none quiet
          (elsewhere s.queue lane q t (s.queue q ++ i ∷ []) apart) stays h
    suspend_if-Heard i t s pc q l (false, m) none quiet (inl e) h =
        let same : m ≡ s.mem = ap (λ r. r.1) e in
        Heard-update s (suspend_if tbb i s q (false, m) l).0 pc i t _ none quiet (λ z. z)
          (λ k g. rw same g) h
    suspend_if-Heard i t s pc q l (false, m) none quiet (inr (apart, stays)) h =
        Heard-update s (suspend_if tbb i s q (false, m) l).0 pc i t _ none quiet (λ z. z) stays h

    Heard-same :
        (s : State tbb M L) (pc : ℕ → Pc M L) (i t : ℕ) (p : Pc M L)
        → pc i ≡ p
        → Heard s pc t
        → Heard s (update pc i p) t
    Heard-same s pc i t p e (inl h) = inl h
    Heard-same s pc i t p e (inr (inl h)) = elim (Bool-cases (i == t)) [
      | inl here ↦
          let same : t ≡ i = ground arith in
          let mine : pc t ≡ p = ap pc same ∙ e in
          inr (inl (rw here (subst (λ q. waiting (place q) s.mem ≡ true) mine h)))
      | inr other ↦ inr (inl (rw other h))
    ]
    Heard-same s pc i t p e (inr (inr (j, lt, h))) = inr (inr (j, lt, ground arith))

    module _ (alarmed : Alarmed lane waiting alarm Lands prog) where
      runs :
          RunKeeps tbb prog n
            (WaitsFor lane waiting alarm)
            Lands
            alarmed.waits
            (λ s pc. (t : ℕ) → Heard s pc t)
      unfolding exec
      runs luck i s pc (at l) acc lt e a w ws h t =
          perform-Heard i t s pc l (prog.action luck l s.mem) lt e
            (absent s pc i acc (ground arith)) (alarmed.acts luck l s.mem a)
            (alarmed.waits luck l s.mem) (h t)
      runs luck i s pc (recheck q pred l) acc lt e a w ws h t =
          suspend_if-Heard i t s pc q l (pred s.mem) (absent s pc i acc (ground arith))
            (ground arith) (w.0 s.mem) (h t)
      runs luck i s pc (parked q l) acc lt e a w ws h t =
          elim (Bool-cases (tbb.is_suspended s.world i)) [
            | inl asleep ↦ rw asleep (Heard-same s pc i t (parked q l) e (h t))
            | inr awake ↦ rw awake (
                Heard-update s s pc i t (at l) (ground (arith, acc.balanced lane i)) (ground arith)
                  (λ z. z) (λ k g. g) (h t))
          ]
      runs luck i s pc (resuming q [] l) acc lt e a w ws h t =
          Heard-on s s pc i t (at l) lt (absent s pc i acc (ground arith)) (λ sound. ground arith)
            (λ z. z) (λ k g. g) (h t)
      runs luck i s pc (resuming q (u ∷ ts) l) acc lt e a w ws h t =
          Heard-on s (record s { world = tbb.resume s.world u }) pc i t (resuming q ts l) lt
            (absent s pc i acc (ground arith)) (λ sound. ground arith) (λ z. z) (λ k g. g) (h t)

      calls :
          CallKeeps tbb prog n
            (WaitsFor lane waiting alarm)
            Lands
            alarmed.waits
            (λ s pc. (t : ℕ) → Heard s pc t)
      calls i l l' s pc acc lt e c h t =
          Heard-on s s pc i t (at l') lt (absent s pc i acc (ground arith))
            (λ sound. ground (arith, alarmed.calls l l' c)) (λ z. z) (λ k g. g) (h t)

  -- In a state that is reached, a task that is suspended in the lane and no longer has to wait is about
  -- to be resumed: some task is on its way to resume all waiters of the lane, or is resuming this
  -- one.
  pub heard_in_lane :
      (Lands : QueueId → L → Type 0) (tbb : Tbb) (prog : Program M L) (n : ℕ) (m : M)
      (start : ℕ → L) (w : tbb.World)
      → Alarmed lane waiting alarm Lands prog
      → ((t : ℕ) → tbb.is_suspended w t ≡ false)
      → {s : System tbb M L} → Reach tbb prog n (initial tbb prog m start w) s
      → (i : ℕ) → tbb.is_suspended s.state.world i ≡ true
      → parked_on lane (s.pc i) ≡ true
      → waiting (place (s.pc i)) s.state.mem ≡ false
      → (j : ℕ) × (j < n)
        × ((sounds lane alarm (s.pc j) ≡ true) ⊎ (0 < count i (held lane (s.pc j))))
  heard_in_lane Lands tbb prog n m start w alarmed quiet {s} r i sus home over =
      let begin = initial-Accounts tbb prog n m start w quiet in
      let acc = Reach-Accounts tbb prog n begin r in
      let balanced = acc.balanced lane i in
      let told =
        Reach-ind tbb prog n (WaitsFor lane waiting alarm) Lands alarmed.waits
          (λ s' pc. (t : ℕ) → Heard Lands tbb prog n s' pc t) (runs Lands tbb prog n alarmed)
          (calls Lands tbb prog n alarmed) begin (λ j. tt) (λ t. inl (ground arith)) r i in
      let held_by : ℕ → ℕ = λ j. count i (held lane (s.pc j)) in
      elim (dec_lt 0 (total n held_by)) [
        | yes pos ↦ let (j, lt, h) = of_total_pos n held_by pos in (j, lt, inr h)
        | no none ↦ elim told [
          | inl absent' ↦ absurd (ground arith)
          | inr (inl still) ↦ absurd (ground arith)
          | inr (inr (j, lt, h)) ↦ (j, lt, inl h)
        ]
      ]

module _ {M L : Type 0} (waiting : L → M → Bool) (alarm : L → Bool) (tbb : Tbb) (prog : Program M L)
    (n : ℕ) (m : M) (start : ℕ → L) (w : tbb.World)
    (alarmed : Alarmed primary waiting alarm OnPrimary prog)
    (quiet : (t : ℕ) → tbb.is_suspended w t ≡ false) {s : System tbb M L}
    (r : Reach tbb prog n (initial tbb prog m start w) s) (i : ℕ)
    (sus : tbb.is_suspended s.state.world i ≡ true) where
  -- Where every wait is on the first queue, so is that of a task that is suspended.
  pub suspended_on_primary : parked_on primary (s.pc i) ≡ true
  suspended_on_primary =
      let acc = Reach-Accounts tbb prog n (initial-Accounts tbb prog n m start w quiet) r in
      let lands =
        Reach-PcWaits (WaitsFor primary waiting alarm) OnPrimary tbb prog alarmed.waits (λ j. tt) r
          i in
      parked_on_primary (WaitsFor primary waiting alarm) OnPrimary (s.pc i) (λ q l h. h)
        (acc.parks i sus) lands

  pub heard :
      waiting (place (s.pc i)) s.state.mem ≡ false
      → (j : ℕ) × (j < n)
        × ((sounds primary alarm (s.pc j) ≡ true) ⊎ (0 < count i (held primary (s.pc j))))
  heard over =
      heard_in_lane primary waiting alarm OnPrimary tbb prog n m start w alarmed quiet r i sus
        suspended_on_primary over
