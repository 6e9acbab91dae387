-- ===== src/Machine/Quiet.antt =====
-- States in which nobody waits: the destructors assert that the wait queues are empty.
use coopsync_tbb.Base.{
  ℕ, ◌<◌, ◌≡◌, refl, Bool, true, false, List, [], ◌∷◌, arith, count, Bool-cases, inl, inr,
}
use coopsync_tbb.Tbb.{Tbb}
use coopsync_tbb.Machine.{QueueId, Program, System, initial, Reach}
use coopsync_tbb.Machine.Occupancy.{is_parked, weight, Accounts}
use coopsync_tbb.Machine.Accounts.{initial-Accounts, Reach-Accounts}

-- `wait_queue::empty`
abbrev pub is_nil : List ℕ → Bool
is_nil [] = true
is_nil (t ∷ ts) = false

nil_of_count : (xs : List ℕ) → ((t : ℕ) → count t xs ≡ 0) → is_nil xs ≡ true
nil_of_count [] none = refl
nil_of_count (x ∷ xs) none = ground (arith, none x)

module _ (tbb : Tbb) {M L : Type 0} {n : ℕ} where
  unweighted :
      (s : System tbb M L)
      → Accounts tbb n s
      → ((j : ℕ) → j < n → is_parked (s.pc j) ≡ false)
      → (q : QueueId) (t : ℕ) → weight tbb q t s.state s.pc ≡ 0
  unweighted s acc out q t = elim (Bool-cases (tbb.is_suspended s.state.world t)) [
    | inl asleep ↦ ground (arith, acc.parks t asleep, out t (acc.in_range t asleep))
    | inr awake ↦ rw awake refl
  ]

  -- In a reachable state where no task is inside `wait_if` past its suspension, the wait queues are
  -- empty.
  pub queues_empty :
      (prog : Program M L) (m : M) (start : ℕ → L) {w : tbb.World} {s : System tbb M L}
      → ((t : ℕ) → tbb.is_suspended w t ≡ false)
      → Reach tbb prog n (initial tbb prog m start w) s
      → ((j : ℕ) → j < n → is_parked (s.pc j) ≡ false)
      → (q : QueueId) → is_nil (s.state.queue q) ≡ true
  queues_empty prog m start {w} {s} quiet r out q =
      let acc = Reach-Accounts tbb prog n (initial-Accounts tbb prog n m start w quiet) r in
      nil_of_count (s.state.queue q)
        (λ t. omega (arith, acc.balanced q t, unweighted s acc out q t))
