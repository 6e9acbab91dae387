-- ===== src/Barrier/Wake.antt =====
-- The end of a phase in include/coopsync_tbb/barrier.hpp.
use coopsync_tbb.Base.{ℕ, ◌<◌, ◌≡◌, ◌⊎◌, inl, inr, refl, Bool, true, false, arith, ◌==◌, count}
use coopsync_tbb.Tbb.{Tbb}
use coopsync_tbb.Machine.{primary, resume_all, place, System, initial, Reach}
use coopsync_tbb.Machine.Occupancy.{held}
use coopsync_tbb.Machine.Waits.{ActionWaits}
use coopsync_tbb.Machine.Alarm.{Alerts, WaitsFor, OnPrimary, Alarmed, sounds}
use coopsync_tbb.Machine.Alarm.Heard.{heard}
use coopsync_tbb.Machine.Alarm.Alone.{Prompt, Wakes, woken}
use coopsync_tbb.Barrier.{
  Barrier, Loc, outside, arrive, subtract, complete, reload, restore, advance, wake, token, wait,
  sleep, passed, drop, action, Call, calls_arrive, calls_arrive_and_wait, calls_arrive_and_drop,
  calls_wait, discards, returns, barrier, new_barrier, arrived,
}

-- The last arrival, on its way to resume all waiters.
abbrev pub is_waking : Loc → Bool
is_waking (wake _ _) = true
is_waking _ = false

module _ {D : Type 0} (completion : D → D) where
  -- The phase is still the one that the task waits to see ended.
  abbrev unchanged : Loc → Barrier D → Bool
  unchanged (passed old) m = m.phase == old
  unchanged _ m = false

  -- An access that leaves the phase alone ends no wait.
  stays :
      (m m' : Barrier D)
      → m'.phase ≡ m.phase
      → (k : Loc) → unchanged k m ≡ true
      → unchanged k m' ≡ true
  stays m m' e (passed old) h = rw e h
  stays m m' e outside h = absurd (ground arith)
  stays m m' e (arrive u b) h = absurd (ground arith)
  stays m m' e (subtract u p b) h = absurd (ground arith)
  stays m m' e (complete p b) h = absurd (ground arith)
  stays m m' e (reload p b) h = absurd (ground arith)
  stays m m' e (restore u p b) h = absurd (ground arith)
  stays m m' e (advance p b) h = absurd (ground arith)
  stays m m' e (wake p b) h = absurd (ground arith)
  stays m m' e (token p) h = absurd (ground arith)
  stays m m' e (wait p) h = absurd (ground arith)
  stays m m' e (sleep p) h = absurd (ground arith)
  stays m m' e drop h = absurd (ground arith)

  acts :
      (luck : Bool) (l : Loc) (m : Barrier D)
      → (barrier completion).Allowed l m
      → Alerts primary unchanged is_waking l m (action completion luck l m)
  unfolding action
  acts luck outside m a = inr (refl, λ k h. h)
  acts luck (arrive u b) m a = inr (refl, λ k h. h)
  acts luck (subtract u p b) m a = inr (refl, stays m _ refl)
  acts luck (complete p b) m a = inr (refl, stays m _ refl)
  acts luck (reload p b) m a = inr (refl, λ k h. h)
  acts luck (restore u p b) m a = inr (refl, stays m _ refl)
  acts luck (advance p b) m a = inl refl
  acts luck (wake p b) m a = inl refl
  acts luck (token p) m a = inr (refl, λ k h. h)
  acts luck (wait p) m a = inr (refl, λ k h. h)
  acts luck (sleep p) m a = refl
  acts luck (passed p) m a = inr (refl, λ k h. h)
  acts luck drop m a = inr (refl, stays m _ refl)

  waits :
      (luck : Bool) (l : Loc) (m : Barrier D)
      → ActionWaits (WaitsFor primary unchanged is_waking) OnPrimary (action completion luck l m)
  unfolding action
  waits luck (sleep old) m = (λ m'. inl refl, refl)
  waits luck outside m = tt
  waits luck (arrive u b) m = tt
  waits luck (subtract u p b) m = tt
  waits luck (complete p b) m = tt
  waits luck (reload p b) m = tt
  waits luck (restore u p b) m = tt
  waits luck (advance p b) m = tt
  waits luck (wake p b) m = tt
  waits luck (token p) m = tt
  waits luck (wait p) m = tt
  waits luck (passed p) m = tt
  waits luck drop m = tt

  calls : (l l' : Loc) → Call completion l l' → is_waking l ≡ true → is_waking l' ≡ true
  calls l l' (calls_arrive u) h = absurd (ground arith)
  calls l l' calls_arrive_and_wait h = absurd (ground arith)
  calls l l' calls_arrive_and_drop h = absurd (ground arith)
  calls l l' (calls_wait p) h = absurd (ground arith)
  calls l l' (discards p) h = absurd (ground arith)
  calls l l' (returns p) h = absurd (ground arith)

  barrier-Alarmed : Alarmed primary unchanged is_waking OnPrimary (barrier completion)
  barrier-Alarmed = record { acts = acts; waits = waits; calls = calls }

  wakes_at_once :
      (l : Loc) (m : Barrier D)
      → is_waking l ≡ true
      → (barrier completion).Allowed l m
        × ((l' : Loc) × (action completion true l m ≡ resume_all primary l'))
  unfolding action
  wakes_at_once (wake p w) m loud = (tt, (arrived p w, refl))
  wakes_at_once outside m loud = absurd (ground arith)
  wakes_at_once (arrive u w) m loud = absurd (ground arith)
  wakes_at_once (subtract u p w) m loud = absurd (ground arith)
  wakes_at_once (complete p w) m loud = absurd (ground arith)
  wakes_at_once (reload p w) m loud = absurd (ground arith)
  wakes_at_once (restore e p w) m loud = absurd (ground arith)
  wakes_at_once (advance p w) m loud = absurd (ground arith)
  wakes_at_once (token p) m loud = absurd (ground arith)
  wakes_at_once (wait p) m loud = absurd (ground arith)
  wakes_at_once (sleep p) m loud = absurd (ground arith)
  wakes_at_once (passed p) m loud = absurd (ground arith)
  wakes_at_once drop m loud = absurd (ground arith)

  barrier-Prompt : Prompt primary is_waking (barrier completion)
  barrier-Prompt = record { quick = wakes_at_once }

  -- In a reachable state where a suspended task waits for the end of a phase that is no longer the
  -- current one, some task is about to resume all waiters, or is resuming this one.
  pub barrier_no_lost_wakeup :
      (tbb : Tbb) (expected : ℕ) (d : D) {n : ℕ} {w : tbb.World} {s : System tbb (Barrier D) Loc}
      → ((t : ℕ) → tbb.is_suspended w t ≡ false)
      → Reach tbb
          (barrier completion)
          n
          (initial tbb (barrier completion) (new_barrier expected d) (λ _. outside) w)
          s
      → (i old : ℕ) → tbb.is_suspended s.state.world i ≡ true
      → place (s.pc i) ≡ passed old
      → (s.state.mem.phase == old) ≡ false
      → (j : ℕ) × (j < n)
        × ((sounds primary is_waking (s.pc j) ≡ true) ⊎ (0 < count i (held primary (s.pc j))))
  barrier_no_lost_wakeup tbb expected d {n} {w} {s} quiet r i old sus at_old ended =
      heard unchanged is_waking tbb (barrier completion) n (new_barrier expected d) (λ _. outside) w
        barrier-Alarmed quiet r i sus (rw at_old ended)

  -- In a reachable state where a suspended task waits for the end of a phase that is no longer the
  -- current one, some task has a run of its own, in which no other task takes a step and after
  -- which the suspended one is awake.
  pub barrier_woken :
      (tbb : Tbb) (expected : ℕ) (d : D) {n : ℕ} {w : tbb.World} {s : System tbb (Barrier D) Loc}
      → ((t : ℕ) → tbb.is_suspended w t ≡ false)
      → Reach tbb
          (barrier completion)
          n
          (initial tbb (barrier completion) (new_barrier expected d) (λ _. outside) w)
          s
      → (i old : ℕ) → tbb.is_suspended s.state.world i ≡ true
      → place (s.pc i) ≡ passed old
      → (s.state.mem.phase == old) ≡ false
      → (j : ℕ) × (j < n) × Wakes tbb (barrier completion) j i s
  barrier_woken tbb expected d {n} {w} {s} quiet r i old sus at_old ended =
      woken unchanged is_waking tbb (barrier completion) n (new_barrier expected d) (λ _. outside) w
        barrier-Alarmed barrier-Prompt quiet r i sus (rw at_old ended)
