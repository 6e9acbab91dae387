-- ===== src/Machine/Wakes.antt =====
-- A weight for every task, which a resumed task takes over from the one that resumes it. `power` is
-- the weight of a location of the code, `looking` that of a task between the two tests of `wait_if`;
-- resumptions from the queues of `lane` count.
use coopsync_tbb.Base.{
  ℕ, suc, ◌+◌, ◌<◌, ◌≤◌, ◌≢◌, ◌≡◌, refl, Bool, true, false, List, ◌∷◌, arith, if◌then◌else◌, update,
  length, total, total_change, of_total_pos, le-total,
}
use coopsync_tbb.Tbb.{Tbb}
use coopsync_tbb.Machine.{QueueId, primary, secondary, Pc, at, recheck, parked, resuming, State}
use coopsync_tbb.Machine.Occupancy.{is_parked, parked_on, weight, Accounts}

pub record Weights (L : Type 0) : Type 0 where
  pub power : L → ℕ
  pub looking : ℕ
  pub lane : QueueId → Bool

-- The Boolean says whether the task is suspended.
abbrev pub wakes : {M L : Type 0} → Weights L → Pc M L → Bool → ℕ
wakes v (at l) b = v.power l
wakes v (recheck _ _ _) b = v.looking
wakes v (parked q _) b = if b then 0 else (if v.lane q then 1 else 0)
wakes v (resuming q ts l) b = (if v.lane q then length ts else 0) + v.power l

wakes-awake :
    {M L : Type 0} (v : Weights L) (q : QueueId) (p : Pc M L)
    → parked_on q p ≡ true
    → wakes v p false ≡ (if v.lane q then 1 else 0)
wakes-awake v primary (parked primary l) h = refl
wakes-awake v secondary (parked secondary l) h = refl
wakes-awake v primary p h = ground arith
wakes-awake v secondary p h = ground arith

module _ (tbb : Tbb) {M L : Type 0} (v : Weights L) (n : ℕ) where
  pub total_wakes : State tbb M L → (ℕ → Pc M L) → ℕ
  total_wakes s pc = total n (λ j. wakes v (pc j) (tbb.is_suspended s.world j))

  -- A step of task `i` that leaves the suspension of the others alone.
  pub total_wakes_change :
      (i : ℕ) (s s' : State tbb M L) (pc : ℕ → Pc M L) (p : Pc M L)
      → i < n
      → ((j : ℕ) → i ≢ j → tbb.is_suspended s'.world j ≡ tbb.is_suspended s.world j)
      → total_wakes s' (update pc i p) + wakes v (pc i) (tbb.is_suspended s.world i)
        ≡ total_wakes s pc + wakes v p (tbb.is_suspended s'.world i)
  unfolding total_wakes
  total_wakes_change i s s' pc p lt same =
      let after : ℕ → ℕ = λ j. wakes v (update pc i p j) (tbb.is_suspended s'.world j) in
      let before : ℕ → ℕ = λ j. wakes v (pc j) (tbb.is_suspended s.world j) in
      let change = total_change n after before i lt (λ j ne. ground (arith, same j ne)) in
      let self : after i ≡ wakes v p (tbb.is_suspended s'.world i) = ground arith in omega arith

  -- A resumed task gains what the resuming task loses.
  pub total_wakes-resume :
      (i t : ℕ) (ts : List ℕ) (q : QueueId) (l : L) (s : State tbb M L) (pc : ℕ → Pc M L)
      → i < n
      → Accounts tbb n (record { state = s; pc = pc })
      → pc i ≡ resuming q (t ∷ ts) l
      → weight tbb q t s pc ≡ 1
      → total_wakes (record s { world = tbb.resume s.world t }) (update pc i (resuming q ts l))
        ≡ total_wakes s pc
  unfolding total_wakes
  total_wakes-resume i t ts q l s pc lt acc e one =
      let sus : tbb.is_suspended s.world t ≡ true = ground arith in
      let home : parked_on q (pc t) ≡ true = ground arith in
      let there : is_parked (pc t) ≡ true = acc.parks t sus in
      let within : t < n = acc.in_range t sus in
      let before : ℕ → ℕ = λ j. wakes v (pc j) (tbb.is_suspended s.world j) in
      let middle : ℕ → ℕ = λ j. wakes v (pc j) (tbb.is_suspended (tbb.resume s.world t) j) in
      let after : ℕ → ℕ = λ j.
        wakes v (update pc i (resuming q ts l) j) (tbb.is_suspended (tbb.resume s.world t) j) in
      let first =
        total_change n before middle t within
          (λ j ne. ground (arith, tbb.is_suspended-resume s.world t j)) in
      let second = total_change n middle after i lt (λ j ne. ground arith) in
      let b : before t ≡ 0 = ground arith in
      let m : middle t ≡ (if v.lane q then 1 else 0) =
        ground (arith, tbb.is_suspended-resume s.world t t, wakes-awake v q (pc t)) in
      let m' : middle i ≡ (if v.lane q then suc (length ts) else 0) + v.power l = ground arith in
      let a : after i ≡ (if v.lane q then length ts else 0) + v.power l = ground arith in
      ground arith

  pub of_total_wakes :
      (s : State tbb M L) (pc : ℕ → Pc M L)
      → 0 < total_wakes s pc
      → (j : ℕ) × (j < n) × (0 < wakes v (pc j) (tbb.is_suspended s.world j))
  unfolding total_wakes
  of_total_wakes s pc h = of_total_pos n (λ j. wakes v (pc j) (tbb.is_suspended s.world j)) h

  pub le-total_wakes :
      (s : State tbb M L) (pc : ℕ → Pc M L) (i : ℕ)
      → i < n
      → wakes v (pc i) (tbb.is_suspended s.world i) ≤ total_wakes s pc
  unfolding total_wakes
  le-total_wakes s pc i lt = le-total n (λ j. wakes v (pc j) (tbb.is_suspended s.world j)) i lt

  pub total_wakes_lem :
      (s : State tbb M L) (pc : ℕ → Pc M L)
      → total_wakes s pc ≡ total n (λ j. wakes v (pc j) (tbb.is_suspended s.world j))
  unfolding total_wakes
  total_wakes_lem s pc = refl
