-- ===== src/Machine/Occupancy.antt =====
-- Where suspended tasks stand: in the wait queue that they wait on, or in the list of a task that is
-- resuming them.
use coopsync_tbb.Base.{
  ℕ, ◌<◌, ◌+◌, ◌≡◌, Bool, true, false, ◌&&◌, List, [], if◌then◌else◌, count, total,
}
use coopsync_tbb.Tbb.{Tbb}
use coopsync_tbb.Machine.{QueueId, primary, secondary, Pc, parked, resuming, State, System}

-- The tasks that a task has taken off a queue and has not resumed yet.
abbrev pub held : {M L : Type 0} → QueueId → Pc M L → List ℕ
held primary (resuming primary ts _) = ts
held secondary (resuming secondary ts _) = ts
held _ _ = []

abbrev pub parked_on : {M L : Type 0} → QueueId → Pc M L → Bool
parked_on primary (parked primary _) = true
parked_on secondary (parked secondary _) = true
parked_on _ _ = false

abbrev pub is_parked : {M L : Type 0} → Pc M L → Bool
is_parked (parked _ _) = true
is_parked _ = false

abbrev pub one_if : Bool → ℕ
one_if b = if b then 1 else 0

module _ (tbb : Tbb) {M L : Type 0} where
  abbrev pub weight : QueueId → ℕ → State tbb M L → (ℕ → Pc M L) → ℕ
  weight q t s pc = one_if (tbb.is_suspended s.world t && parked_on q (pc t))

  pub record Accounts (n : ℕ) (s : System tbb M L) : Type 0 where
    pub balanced :
        (q : QueueId) (t : ℕ)
        → count t (s.state.queue q) + total n (λ j. count t (held q (s.pc j)))
          ≡ weight q t s.state s.pc
    pub parks : (t : ℕ) → tbb.is_suspended s.state.world t ≡ true → is_parked (s.pc t) ≡ true
    pub in_range : (t : ℕ) → tbb.is_suspended s.state.world t ≡ true → t < n
