-- ===== src/Barrier/Completion/Invariant.antt =====
-- The completion step of include/coopsync_tbb/barrier.hpp: who is in it, and what it excludes.
-- store of the next expected count.
use coopsync_tbb.Base.{
  ℕ, ◌<◌, ◌≤◌, ◌≡◌, refl, Bool, true, false, arith, update, total, total-update, dec_lt, ◌∙◌,
}
use coopsync_tbb.Machine.{QueueId, Pc, place, Program}
use coopsync_tbb.Machine.Waits.{ActionWaits}
use coopsync_tbb.Barrier.{
  Barrier, Loc, outside, arrive, subtract, complete, reload, restore, advance, wake, token, wait,
  sleep, passed, drop, arrived, action, Call,
}

-- A task between the last arrival and the store of the next expected count.
abbrev pub completing : Loc → ℕ
completing (complete p w) = 1
completing (reload p w) = 1
completing (restore k p w) = 1
completing _ = 0

abbrev pub busy : {D : Type 0} → Pc (Barrier D) Loc → ℕ
busy p = completing (place p)

-- Arrivals by at least one.
abbrev pub Positive : {D : Type 0} → Loc → Barrier D → Type 0
Positive (subtract u p w) m = (0 < u) × (u ≤ m.expected)
Positive drop m = 0 < m.initial_expected
Positive _ m = Unit {0}

abbrev pub Untouched : {D : Type 0} → QueueId → (Barrier D → Bool × Barrier D) → Loc → Type 0
Untouched {D = D} q pred l = (m : Barrier D) → (pred m).1 ≡ m

abbrev pub Anywhere : QueueId → Loc → Type 0
Anywhere q l = Unit {0}

pub arrived_idle : (p : ℕ) (w : Bool) → completing (arrived p w) ≡ 0
arrived_idle p true = refl
arrived_idle p false = refl

module _ {D : Type 0} (completion : D → D) where
  -- A barrier whose callers never arrive by zero.
  abbrev pub positive_barrier : Program (Barrier D) Loc
  positive_barrier = record {
    action = action completion;
    Call = Call completion;
    Allowed = Positive;
  }

  pub waits :
      (luck : Bool) (l : Loc) (m : Barrier D)
      → ActionWaits Untouched Anywhere (action completion luck l m)
  unfolding action
  waits luck (sleep p) m = (λ m'. refl, tt)
  waits luck outside m = tt
  waits luck (arrive u w) m = tt
  waits luck (subtract u p w) m = tt
  waits luck (complete p w) m = tt
  waits luck (reload p w) m = tt
  waits luck (restore k p w) m = tt
  waits luck (advance p w) m = tt
  waits luck (wake p w) m = tt
  waits luck (token p) m = tt
  waits luck (wait p) m = tt
  waits luck (passed p) m = tt
  waits luck drop m = tt

module _ {D : Type 0} (n : ℕ) where
  abbrev pub number : (ℕ → Pc (Barrier D) Loc) → ℕ
  number pc = total n (λ j. busy (pc j))

  -- At most one task completes a phase, and meanwhile no arrival is expected.
  pub record Inv (m : Barrier D) (pc : ℕ → Pc (Barrier D) Loc) : Type 0 where
    pub few : number pc ≤ 1
    pub none_left : 0 < number pc → m.expected ≡ 0

  pub Inv-move :
      (m m' : Barrier D) (pc : ℕ → Pc (Barrier D) Loc) (i : ℕ) (p' : Pc (Barrier D) Loc)
      → i < n
      → busy p' ≡ busy (pc i)
      → m'.expected ≡ m.expected
      → Inv m pc
      → Inv m' (update pc i p')
  Inv-move m m' pc i p' lt same kept v =
      let change = total-update n (busy {D = D}) pc i p' lt in
      record { few = omega (arith, v.few); none_left = λ pos. kept ∙ v.none_left (omega arith) }

  -- While a task completes a phase, no task arrives.
  pub subtracting :
      {u : ℕ} (m : Barrier D) (pc : ℕ → Pc (Barrier D) Loc)
      → 0 < u
      → u ≤ m.expected
      → Inv m pc
      → number pc ≡ 0
  subtracting m pc pos le v = elim (dec_lt 0 (number pc)) [
    | yes some' ↦ absurd (omega (arith, v.none_left some'))
    | no idle ↦ omega arith
  ]
