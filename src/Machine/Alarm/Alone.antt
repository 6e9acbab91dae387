-- ===== src/Machine/Alarm/Alone.antt =====
-- Runs of one task alone, and the tasks that it wakes.
use coopsync_tbb.Base.{
  ℕ, ◌<◌, ◌≡◌, inl, inr, refl, Bool, Bool-cases, true, false, List, [], ◌∷◌, arith, ◌==◌, count,
  total, of_total_pos, dec_lt,
}
use coopsync_tbb.Tbb.{Tbb}
use coopsync_tbb.Machine.{
  QueueId, primary, resume_all, Pc, at, recheck, parked, resuming, place, Program, System, step,
  run, initial, Permitted, Reach, next,
}
use coopsync_tbb.Machine.Occupancy.{held, parked_on}
use coopsync_tbb.Machine.Accounts.{initial-Accounts, Reach-Accounts}
use coopsync_tbb.Machine.Steps.{holding, resumed, left, takes_all}
use coopsync_tbb.Machine.Alarm.{sounds, OnPrimary, Alarmed}
use coopsync_tbb.Machine.Alarm.Heard.{heard_in_lane, suspended_on_primary}

-- An alarm is acted on at once, and no assertion stands in the way.
pub record Prompt {M L : Type 0} (lane : QueueId) (alarm : L → Bool) (prog : Program M L)
    : Type 0 where
  pub quick :
      (l : L) (m : M)
      → alarm l ≡ true
      → prog.Allowed l m × ((l' : L) × (prog.action true l m ≡ resume_all lane l'))

module _ (tbb : Tbb) {M L : Type 0} (prog : Program M L) (j : ℕ) where
  -- Steps of the code of task `j`, and of no other one.
  pub data Alone (s : System tbb M L) : System tbb M L → Type 0 where
    stays : Alone s s
    goes :
        {t : System tbb M L}
        → Alone s t
        → (luck : Bool) → Permitted tbb prog (t.pc j) t.state.mem
        → Alone s (step tbb prog luck j t)

  first :
      {s : System tbb M L} (luck : Bool) {t : System tbb M L}
      → Permitted tbb prog (s.pc j) s.state.mem
      → Alone (step tbb prog luck j s) t
      → Alone s t
  first luck a stays = goes stays luck a
  first luck a (goes r luck' a') = goes (first luck a r) luck' a'

  -- Such a run is a run of the machine.
  pub Alone-Reach :
      {n : ℕ} {s t u : System tbb M L}
      → j < n
      → Reach tbb prog n u s
      → Alone s t
      → Reach tbb prog n u t
  Alone-Reach lt r stays = r
  Alone-Reach lt r (goes a luck p) = next (Alone-Reach lt r a) (run luck j lt p)

  -- Task `j` alone comes to wake task `i`.
  abbrev pub Wakes : ℕ → System tbb M L → Type 0
  Wakes i s = (t : System tbb M L) × Alone s t × (tbb.is_suspended t.state.world i ≡ false)

  earlier :
      (i : ℕ) (s : System tbb M L) (luck : Bool)
      → Permitted tbb prog (s.pc j) s.state.mem
      → Wakes i (step tbb prog luck j s)
      → Wakes i s
  earlier i s luck a (t, r, w) = (t, first luck a r, w)

  wakes_held :
      (i : ℕ) (s : System tbb M L) (q : QueueId) (ts : List ℕ) (l : L)
      → s.pc j ≡ resuming q ts l
      → 0 < count i ts
      → Wakes i s
  wakes_held i s q [] l e pos = absurd (omega arith)
  wakes_held i s q (t ∷ ts) l e pos =
      let after = resumed tbb prog true j s q t ts l e in
      earlier i s true (rw e tt) (elim (Bool-cases (t == i)) [
        | inl here' ↦ (
          step tbb prog true j s,
          stays,
          rw after.1 (ground (arith, tbb.is_suspended-resume s.state.world t i)),
        )
        | inr other ↦ wakes_held i (step tbb prog true j s) q ts l after.0 (ground arith)
      ])

  -- It resumes the tasks that it holds, and leaves the queues alone.
  passes :
      (i : ℕ) (lane : QueueId) (s : System tbb M L) (q : QueueId) (ts : List ℕ) (l : L)
      → ((t : System tbb M L) → t.pc j ≡ at l → 0 < count i (t.state.queue lane) → Wakes i t)
      → s.pc j ≡ resuming q ts l
      → 0 < count i (s.state.queue lane)
      → Wakes i s
  passes i lane s q [] l goes_on e pos =
      let after = left tbb prog true j s q l e in
      earlier i s true (rw e tt) (goes_on (step tbb prog true j s) after.0 (rw after.1 pos))
  passes i lane s q (t ∷ ts) l goes_on e pos =
      let after = resumed tbb prog true j s q t ts l e in
      earlier i s true (rw e tt)
        (passes i lane (step tbb prog true j s) q ts l goes_on after.0 (rw after.2 pos))

  module _ (lane : QueueId) (alarm : L → Bool) (prompt : Prompt lane alarm prog) where
    at_wakes :
        (i : ℕ) (s : System tbb M L) (l : L)
        → alarm l ≡ true
        → s.pc j ≡ at l
        → 0 < count i (s.state.queue lane)
        → Wakes i s
    at_wakes i s l loud e pos =
        let (allowed, (l', does)) = prompt.quick l s.state.mem loud in
        let after = takes_all tbb prog true j s l lane l' e does in
        earlier i s true (rw e allowed)
          (wakes_held i (step tbb prog true j s) lane (s.state.queue lane) l' after pos)

    -- A task that sounds the alarm wakes every task of the lane.
    sounds_wakes :
        (i : ℕ) (s : System tbb M L) (p : Pc M L)
        → s.pc j ≡ p
        → sounds lane alarm p ≡ true
        → 0 < count i (s.state.queue lane)
        → Wakes i s
    sounds_wakes i s (at l) e loud pos = at_wakes i s l loud e pos
    sounds_wakes i s (recheck q pred l) e loud pos = absurd (ground arith)
    sounds_wakes i s (parked q l) e loud pos = absurd (ground arith)
    sounds_wakes i s (resuming q ts l) e loud pos =
        passes i lane s q ts l (λ t. at_wakes i t l (ground arith)) e pos

  -- A task that holds another one wakes it.
  holds_wakes :
      (i : ℕ) (lane : QueueId) (s : System tbb M L) → 0 < count i (held lane (s.pc j)) → Wakes i s
  holds_wakes i lane s pos =
      let (q, ts, l, e, mine) = holding lane (s.pc j) i pos in wakes_held i s q ts l e mine

-- In a state that is reached, a task that is suspended in the lane and no longer has to wait is woken
-- by a run of some task alone.
pub woken_in_lane :
    {M L : Type 0} (lane : QueueId) (waiting : L → M → Bool) (alarm : L → Bool)
    (Lands : QueueId → L → Type 0) (tbb : Tbb) (prog : Program M L) (n : ℕ) (m : M) (start : ℕ → L)
    (w : tbb.World)
    → Alarmed lane waiting alarm Lands prog
    → Prompt lane alarm prog
    → ((t : ℕ) → tbb.is_suspended w t ≡ false)
    → {s : System tbb M L} → Reach tbb prog n (initial tbb prog m start w) s
    → (i : ℕ) → tbb.is_suspended s.state.world i ≡ true
    → parked_on lane (s.pc i) ≡ true
    → waiting (place (s.pc i)) s.state.mem ≡ false
    → (j : ℕ) × (j < n) × Wakes tbb prog j i s
woken_in_lane lane waiting alarm Lands tbb prog n m start w alarmed prompt quiet {s} r i sus home
      over =
    let acc = Reach-Accounts tbb prog n (initial-Accounts tbb prog n m start w quiet) r in
    let balanced = acc.balanced lane i in
    let held_by : ℕ → ℕ = λ j. count i (held lane (s.pc j)) in
    let (j, lt, loud) =
      heard_in_lane lane waiting alarm Lands tbb prog n m start w alarmed quiet r i sus home over in
    elim (dec_lt 0 (total n held_by)) [
      | yes pos ↦
          let (k, k_lt, mine) = of_total_pos n held_by pos in
          (k, k_lt, holds_wakes tbb prog k i lane s mine)
      | no none ↦ (
        j,
        lt,
        elim loud [
          | inl sound ↦
              sounds_wakes tbb prog j lane alarm prompt i s (s.pc j) refl sound (ground arith)
          | inr mine ↦ holds_wakes tbb prog j i lane s mine
        ],
      )
    ]

-- The same, where every wait is on the first queue.
pub woken :
    {M L : Type 0} (waiting : L → M → Bool) (alarm : L → Bool) (tbb : Tbb) (prog : Program M L)
    (n : ℕ) (m : M) (start : ℕ → L) (w : tbb.World)
    → Alarmed primary waiting alarm OnPrimary prog
    → Prompt primary alarm prog
    → ((t : ℕ) → tbb.is_suspended w t ≡ false)
    → {s : System tbb M L} → Reach tbb prog n (initial tbb prog m start w) s
    → (i : ℕ) → tbb.is_suspended s.state.world i ≡ true
    → waiting (place (s.pc i)) s.state.mem ≡ false
    → (j : ℕ) × (j < n) × Wakes tbb prog j i s
woken waiting alarm tbb prog n m start w alarmed prompt quiet {s} r i sus over =
    woken_in_lane primary waiting alarm OnPrimary tbb prog n m start w alarmed prompt quiet r i sus
      (suspended_on_primary waiting alarm tbb prog n m start w alarmed quiet r i sus) over
