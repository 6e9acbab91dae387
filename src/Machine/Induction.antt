-- ===== src/Machine/Induction.antt =====
-- Invariants of a program: what every step keeps holds in every reachable state. The step may use
-- the accounts of the queues and what holds of each `wait_if`.
use coopsync_tbb.Base.{ℕ, ◌<◌, ◌≡◌, refl, Bool, update}
use coopsync_tbb.Tbb.{Tbb}
use coopsync_tbb.Machine.{
  QueueId, Pc, at, Program, State, System, exec, step, run, call, Permitted, Reach, here, next,
}
use coopsync_tbb.Machine.Occupancy.{Accounts}
use coopsync_tbb.Machine.Accounts.{Reach-Accounts}
use coopsync_tbb.Machine.Waits.{ActionWaits, PcWaits, Reach-PcWaits}

module _ (tbb : Tbb) {M L : Type 0} (prog : Program M L) (n : ℕ)
    (Waits : QueueId → (M → Bool × M) → L → Type 0) (Lands : QueueId → L → Type 0)
    (ok : (luck : Bool) (l : L) (m : M) → ActionWaits Waits Lands (prog.action luck l m))
    (P : State tbb M L → (ℕ → Pc M L) → Type 0) where
  -- A step of the code of task `i` keeps `P`.
  abbrev pub RunKeeps : Type 0
  RunKeeps =
      (luck : Bool) (i : ℕ) (s : State tbb M L) (pc : ℕ → Pc M L) (p : Pc M L)
      → Accounts tbb n (record { state = s; pc = pc })
      → i < n
      → pc i ≡ p
      → Permitted tbb prog p s.mem
      → PcWaits Waits Lands p
      → ((j : ℕ) → PcWaits Waits Lands (pc j))
      → P s pc
      → P (exec tbb prog luck i s p).0 (update pc i (exec tbb prog luck i s p).1)

  -- A call by the code of task `i` keeps `P`.
  abbrev pub CallKeeps : Type 0
  CallKeeps =
      (i : ℕ) (l l' : L) (s : State tbb M L) (pc : ℕ → Pc M L)
      → Accounts tbb n (record { state = s; pc = pc })
      → i < n
      → pc i ≡ at l
      → prog.Call l l'
      → P s pc
      → P s (update pc i (at l'))

  pub Reach-ind :
      {s t : System tbb M L}
      → RunKeeps
      → CallKeeps
      → Accounts tbb n s
      → ((j : ℕ) → PcWaits Waits Lands (s.pc j))
      → P s.state s.pc
      → Reach tbb prog n s t
      → P t.state t.pc
  unfolding step
  Reach-ind runs calls acc ws h here = h
  Reach-ind runs calls acc ws h (next {t} r (run luck i lt a)) =
      runs luck i t.state t.pc (t.pc i) (Reach-Accounts tbb prog n acc r) lt refl a
        (Reach-PcWaits Waits Lands tbb prog ok ws r i) (Reach-PcWaits Waits Lands tbb prog ok ws r)
        (Reach-ind runs calls acc ws h r)
  Reach-ind runs calls acc ws h (next {t} r (call i l l' lt e c)) =
      calls i l l' t.state t.pc (Reach-Accounts tbb prog n acc r) lt e c
        (Reach-ind runs calls acc ws h r)
