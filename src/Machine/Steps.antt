-- ===== src/Machine/Steps.antt =====
-- What one step of a task does to it, by where it stands.
use coopsync_tbb.Base.{
  ℕ, ◌<◌, ◌≡◌, count, refl, Bool, true, false, List, [], ◌∷◌, arith, ◌==◌, if◌then◌else◌, take,
}
use coopsync_tbb.Tbb.{Tbb}
use coopsync_tbb.Machine.{
  QueueId, primary, secondary, access, wait_if, resume_one, resume_n, resume_all, Pc, at, recheck,
  parked, resuming, Program, System, perform, suspend_if, exec, step,
}
use coopsync_tbb.Machine.Occupancy.{held}

-- A task that holds another one is resuming it.
pub holding :
    {M L : Type 0} (lane : QueueId) (p : Pc M L) (i : ℕ)
    → 0 < count i (held lane p)
    → (q : QueueId) × (ts : List ℕ) × (l : L) × (p ≡ resuming q ts l) × (0 < count i ts)
holding primary (at l) i pos = absurd (omega arith)
holding primary (recheck q pred l) i pos = absurd (omega arith)
holding primary (parked q l) i pos = absurd (omega arith)
holding primary (resuming primary ts l) i pos = (primary, ts, l, refl, pos)
holding primary (resuming secondary ts l) i pos = absurd (omega arith)
holding secondary (at l) i pos = absurd (omega arith)
holding secondary (recheck q pred l) i pos = absurd (omega arith)
holding secondary (parked q l) i pos = absurd (omega arith)
holding secondary (resuming primary ts l) i pos = absurd (omega arith)
holding secondary (resuming secondary ts l) i pos = (secondary, ts, l, refl, pos)

module _ (tbb : Tbb) {M L : Type 0} (prog : Program M L) (luck : Bool) (j : ℕ)
    (s : System tbb M L) where
  pub resumed :
      (q : QueueId) (t : ℕ) (ts : List ℕ) (l : L)
      → s.pc j ≡ resuming q (t ∷ ts) l
      → ((step tbb prog luck j s).pc j ≡ resuming q ts l)
        × ((step tbb prog luck j s).state.world ≡ tbb.resume s.state.world t)
        × ((step tbb prog luck j s).state.queue ≡ s.state.queue)
        × ((step tbb prog luck j s).state.mem ≡ s.state.mem)
  unfolding step exec
  resumed q t ts l e = rw e (ground arith, refl, refl, refl)

  pub left :
      (q : QueueId) (l : L)
      → s.pc j ≡ resuming q [] l
      → ((step tbb prog luck j s).pc j ≡ at l)
        × ((step tbb prog luck j s).state.queue ≡ s.state.queue)
        × ((step tbb prog luck j s).state.mem ≡ s.state.mem)
  unfolding step exec
  left q l e = rw e (ground arith, refl, refl)

  pub takes_all :
      (l : L) (q : QueueId) (l' : L)
      → s.pc j ≡ at l
      → prog.action luck l s.state.mem ≡ resume_all q l'
      → (step tbb prog luck j s).pc j ≡ resuming q (s.state.queue q) l'
  unfolding step exec perform
  takes_all l q l' e does = rw (e, does) (ground arith)

  pub takes_n :
      (l : L) (q : QueueId) (k : ℕ) (l' : L)
      → s.pc j ≡ at l
      → prog.action luck l s.state.mem ≡ resume_n q k l'
      → ((step tbb prog luck j s).pc j ≡ resuming q (take k (s.state.queue q)) l')
        × ((step tbb prog luck j s).state.mem ≡ s.state.mem)
  unfolding step exec perform
  takes_n l q k l' e does = rw (e, does) (ground arith, refl)

  pub takes_one :
      (l : L) (q : QueueId) (f : Bool → L) (t : ℕ) (ts : List ℕ)
      → s.pc j ≡ at l
      → prog.action luck l s.state.mem ≡ resume_one q f
      → s.state.queue q ≡ t ∷ ts
      → ((step tbb prog luck j s).pc j ≡ resuming q (t ∷ []) (f true))
        × ((step tbb prog luck j s).state.mem ≡ s.state.mem)
  unfolding step exec perform
  takes_one l q f t ts e does full = rw (e, does, full) (ground arith, refl)

  pub accesses :
      (l : L) (m : M) (l' : L)
      → s.pc j ≡ at l
      → prog.action luck l s.state.mem ≡ access m l'
      → ((step tbb prog luck j s).pc j ≡ at l') × ((step tbb prog luck j s).state.mem ≡ m)
  unfolding step exec perform
  accesses l m l' e does = rw (e, does) (ground arith, refl)

  -- A task whose predicate is false goes on, at the first test and at the second.
  pub goes_past :
      (l : L) (q : QueueId) (pred : M → Bool × M) (l' : L)
      → s.pc j ≡ at l
      → prog.action luck l s.state.mem ≡ wait_if q pred l'
      → (pred s.state.mem).0 ≡ false
      → ((step tbb prog luck j s).pc j ≡ at l')
        × ((step tbb prog luck j s).state.mem ≡ (pred s.state.mem).1)
  unfolding step exec perform
  goes_past l q pred l' e does over = rw (e, does, over) (ground arith, refl)

  pub goes_on :
      (q : QueueId) (pred : M → Bool × M) (l : L)
      → s.pc j ≡ recheck q pred l
      → (pred s.state.mem).0 ≡ false
      → ((step tbb prog luck j s).pc j ≡ at l)
        × ((step tbb prog luck j s).state.mem ≡ (pred s.state.mem).1)
  unfolding step exec suspend_if
  goes_on q pred l e over = rw e (go (pred s.state.mem) over)
    where
      go :
          (r : Bool × M)
          → r.0 ≡ false
          → ((if j == j then (suspend_if tbb j s.state q r l).1 else recheck q pred l) ≡ at l)
            × ((suspend_if tbb j s.state q r l).0.mem ≡ r.1)
      go (true, m) e' = cc
      go (false, m) e' = (ground arith, refl)

  pub wakes_up :
      (q : QueueId) (l : L)
      → s.pc j ≡ parked q l
      → tbb.is_suspended s.state.world j ≡ false
      → ((step tbb prog luck j s).pc j ≡ at l) × ((step tbb prog luck j s).state.mem ≡ s.state.mem)
  unfolding step exec
  wakes_up q l e awake = rw (e, awake) (ground arith, refl)

  -- Task `i` stays where it is in a step of another one.
  pub elsewhere : (i : ℕ) → (j == i) ≡ false → (step tbb prog luck j s).pc i ≡ s.pc i
  unfolding step
  elsewhere i other = ground arith
