-- ===== src/Machine/Alarm.antt =====
-- Alarms: tasks that end what others wait for in a queue, the lane, and then resume all of them. Each
-- task that waits goes on, once it is resumed, at a location that says what it waits for.
pub mod Lane
pub mod Heard
pub mod Alone
use coopsync_tbb.Base.{◌≡◌, ◌⊎◌, Bool, true, false, not, ◌&&◌}
use coopsync_tbb.Machine.{
  QueueId, primary, Action, access, wait_if, resume_one, resume_n, resume_all, Pc, at, recheck,
  parked, resuming, Program,
}
use coopsync_tbb.Machine.Waits.{ActionWaits}
use Lane.{same_queue}

-- A task on its way to resume all waiters of the lane.
abbrev pub sounds : {M L : Type 0} → QueueId → (L → Bool) → Pc M L → Bool
sounds lane alarm (at l) = alarm l
sounds lane alarm (recheck q pred l) = false
sounds lane alarm (parked q l) = false
sounds lane alarm (resuming q ts l) = not (same_queue lane q) && alarm l

-- Every wait is on the first queue.
abbrev pub OnPrimary : {L : Type 0} → QueueId → L → Type 0
OnPrimary q l = q ≡ primary

module _ {M L : Type 0} (lane : QueueId) (waiting : L → M → Bool) (alarm : L → Bool) where
  -- An action that ends a wait sounds the alarm, and an alarm sounds until all tasks of the lane are
  -- resumed.
  abbrev pub Alerts : L → M → Action M L → Type 0
  Alerts l m (access m' l') =
      (alarm l' ≡ true) ⊎ ((alarm l ≡ false) × ((k : L) → waiting k m ≡ true → waiting k m' ≡ true))
  Alerts l m (wait_if q pred l') = alarm l ≡ false
  Alerts l m (resume_one q f) = alarm l ≡ false
  Alerts l m (resume_n q k l') = alarm l ≡ false
  Alerts l m (resume_all q l') = (q ≡ lane) ⊎ (alarm l ≡ true → alarm l' ≡ true)

  -- In the lane, the predicate of a wait is what the task waits for, and changes nothing; on the other
  -- queue, it ends no wait.
  abbrev pub WaitsFor : QueueId → (M → Bool × M) → L → Type 0
  WaitsFor q pred l =
      (m : M)
      → (pred m ≡ (waiting l m, m))
        ⊎ ((same_queue lane q ≡ false)
            × ((k : L) → waiting k m ≡ true → waiting k (pred m).1 ≡ true))

  pub record Alarmed (Lands : QueueId → L → Type 0) (prog : Program M L) : Type 0 where
    pub acts : (luck : Bool) (l : L) (m : M) → prog.Allowed l m → Alerts l m (prog.action luck l m)
    pub waits : (luck : Bool) (l : L) (m : M) → ActionWaits WaitsFor Lands (prog.action luck l m)
    pub calls : (l l' : L) → prog.Call l l' → alarm l ≡ true → alarm l' ≡ true
