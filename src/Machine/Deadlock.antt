-- ===== src/Machine/Deadlock.antt =====
-- Runs of the code of several tasks, without further calls, in which a task takes what others wait for.
pub mod Loop
pub mod Takes
use coopsync_tbb.Base.{ℕ, ◌<◌, ◌≡◌, ◌⊎◌, Bool, true}
use coopsync_tbb.Tbb.{Tbb}
use coopsync_tbb.Machine.{
  QueueId, primary, Action, access, wait_if, resume_one, resume_n, Program, System, step, run,
  Permitted, Reach, next,
}
use coopsync_tbb.Machine.Waits.{ActionWaits}
use coopsync_tbb.Machine.Waking.{WaitsForOffer}

module _ (tbb : Tbb) {M L : Type 0} (prog : Program M L) (n : ℕ) where
  -- Steps of the code of the tasks, which lead from a state to `t`.
  pub data Runs (t : System tbb M L) : System tbb M L → Type 0 where
    stays : Runs t t
    goes :
        {s : System tbb M L} (luck : Bool) (j : ℕ)
        → j < n
        → Permitted tbb prog (s.pc j) s.state.mem
        → Runs t (step tbb prog luck j s)
        → Runs t s

  -- They are steps of the machine.
  pub Runs-Reach : {t u s : System tbb M L} → Runs t s → Reach tbb prog n u s → Reach tbb prog n u t
  Runs-Reach stays r = r
  Runs-Reach (goes luck j lt p later) r = Runs-Reach later (next r (run luck j lt p))

-- A task that is about to resume a waiter, if there is one.
abbrev pub ResumesSome : {M L : Type 0} → Action M L → Type 0
ResumesSome (resume_one q f) = q ≡ primary
ResumesSome (resume_n q k l') = (q ≡ primary) × (0 < k)
ResumesSome _ = ⊥

-- A task in its loop takes something if there is something, after finitely many actions.
abbrev pub Presses :
    {M L : Type 0} → (M → ℕ) → (L → Bool) → (L → M → ℕ) → L → M → Action M L → Type 0
Presses avail eager rank l m (access m' l') =
    (avail m' < avail m) ⊎ ((m' ≡ m) × ((eager l' ≡ true) × (rank l' m < rank l m)))
Presses avail eager rank l m (wait_if q pred l') = (eager l' ≡ true) × (rank l' m < rank l m)
Presses avail eager rank l m _ = ⊥

-- A task that was resumed is in its loop.
abbrev pub InLoop : {L : Type 0} → (L → Bool) → QueueId → L → Type 0
InLoop eager q l = (q ≡ primary) × (eager l ≡ true)

-- What the machine needs to know of a program, where `Ready` says that there is something to take.
pub record Eager {M L : Type 0} (avail : M → ℕ) (power : L → ℕ) (eager : L → Bool)
    (rank : L → M → ℕ) (Ready : M → Type 0) (luck : Bool) (prog : Program M L) : Type 0 where
  pub offers : (m : M) → Ready m → 0 < avail m
  pub presses :
      (l : L) (m : M)
      → eager l ≡ true
      → Ready m
      → prog.Allowed l m × Presses avail eager rank l m (prog.action luck l m)
  pub resumes :
      (l : L) (m : M)
      → 0 < power l
      → (eager l ≡ true) ⊎ (prog.Allowed l m × ResumesSome (prog.action luck l m))
  pub waits :
      (b : Bool) (l : L) (m : M)
      → ActionWaits (WaitsForOffer avail power) (InLoop eager) (prog.action b l m)

-- A run after which less is on offer.
abbrev pub Taken :
    {M L : Type 0} → (M → ℕ) → (tbb : Tbb) → Program M L → ℕ → System tbb M L → Type 0
Taken {M} {L} avail tbb prog n s =
    (t : System tbb M L) × Runs tbb prog n t s × (avail t.state.mem < avail s.state.mem)
