-- ===== src/AtomicCondition/Ref/Notify.antt =====
-- The notifications of include/coopsync_tbb/atomic_ref_condition.hpp.
use coopsync_tbb.Base.{ℕ, ◌<◌, ◌≡◌, ◌⊎◌, inl, inr, refl, Bool, true, false, count}
use coopsync_tbb.Tbb.{Tbb}
use coopsync_tbb.AtomicCondition.Atomic.{Order}
use coopsync_tbb.Machine.{QueueId, primary, secondary, parked, System, initial, Reach}
use coopsync_tbb.Machine.Occupancy.{held, parked_on}
use coopsync_tbb.Machine.Waits.{ActionWaits}
use coopsync_tbb.Machine.Alarm.{Alerts, WaitsFor, Alarmed, sounds}
use coopsync_tbb.Machine.Alarm.Heard.{heard_in_lane}
use coopsync_tbb.AtomicCondition.Ref.{
  Referred, Loc, outside, assign, assigned, told, wait, sleep, notify_one, notify_all, action, Call,
  assigns, notifies_original, notifies_copy, calls_wait, calls_notify_one, calls_notify_all,
  atomic_ref_condition,
}

-- A task that has changed the value, up to the notification of all waiters of a condition.
abbrev pub is_notifying : {T : Type 0} → QueueId → Loc T → Bool
is_notifying c assigned = true
is_notifying primary (notify_all primary more) = true
is_notifying secondary (notify_all primary more) = more
is_notifying secondary (notify_all secondary more) = true
is_notifying secondary told = true
is_notifying _ _ = false

module _ {T : Type 0} (same : T → T → Bool) where
  -- The value is still the one that the task waits to see changed.
  abbrev unchanged : Loc T → Referred T → Bool
  unchanged (wait c old o) m = same m.value old
  unchanged _ m = false

  -- A task goes on at the head of the loop.
  abbrev Lands : QueueId → Loc T → Type 0
  Lands q l = Unit {0}

  acts :
      (c : QueueId) (luck : Bool) (l : Loc T) (m : Referred T)
      → (atomic_ref_condition same).Allowed l m
      → Alerts c unchanged (is_notifying c) l m (action same luck l m)
  unfolding action
  acts primary luck outside m a = inr (refl, λ k h. h)
  acts secondary luck outside m a = inr (refl, λ k h. h)
  acts c luck (assign v) m a = inl refl
  acts c luck assigned m a = inl refl
  acts primary luck told m a = inr (refl, λ k h. h)
  acts secondary luck told m a = inl refl
  acts primary luck (wait d old o) m a = inr (refl, λ k h. h)
  acts secondary luck (wait d old o) m a = inr (refl, λ k h. h)
  acts primary luck (sleep d old o) m a = refl
  acts secondary luck (sleep d old o) m a = refl
  acts primary luck (notify_one d) m a = refl
  acts secondary luck (notify_one d) m a = refl
  acts primary luck (notify_all primary more) m a = inl refl
  acts primary luck (notify_all secondary more) m a = inr (λ h. cc)
  acts secondary luck (notify_all primary more) m a = inr (λ h. rw h refl)
  acts secondary luck (notify_all secondary more) m a = inl refl

  waits :
      (c : QueueId) (luck : Bool) (l : Loc T) (m : Referred T)
      → ActionWaits (WaitsFor c unchanged (is_notifying c)) Lands (action same luck l m)
  unfolding action
  waits c luck (sleep d old o) m = (λ m'. inl refl, tt)
  waits c luck outside m = tt
  waits c luck (assign v) m = tt
  waits c luck assigned m = tt
  waits c luck told m = tt
  waits c luck (wait d old o) m = tt
  waits c luck (notify_one d) m = tt
  waits c luck (notify_all d more) m = tt

  calls :
      (c : QueueId) (l l' : Loc T)
      → Call same l l'
      → is_notifying c l ≡ true
      → is_notifying c l' ≡ true
  calls primary l l' (assigns v) h = cc
  calls secondary l l' (assigns v) h = cc
  calls primary l l' notifies_original h = refl
  calls secondary l l' notifies_original h = refl
  calls primary l l' notifies_copy h = cc
  calls secondary l l' notifies_copy h = refl
  calls primary l l' (calls_wait d old o) h = cc
  calls secondary l l' (calls_wait d old o) h = cc
  calls primary l l' (calls_notify_one d) h = cc
  calls secondary l l' (calls_notify_one d) h = cc
  calls primary l l' (calls_notify_all d) h = cc
  calls secondary l l' (calls_notify_all d) h = cc

  condition-Alarmed :
      (c : QueueId) → Alarmed c unchanged (is_notifying c) Lands (atomic_ref_condition same)
  condition-Alarmed c = record { acts = acts c; waits = waits c; calls = calls c }

  own_lane : (c : QueueId) (l : Loc T) → parked_on {M = Referred T} c (parked c l) ≡ true
  own_lane primary l = refl
  own_lane secondary l = refl

  -- If every task that changes the value then notifies all waiters of the original and of the copy, in
  -- a reachable state where a task is suspended in the `wait` of one of them, for a value that is no
  -- longer the current one, some task is about to notify all waiters of this one, because it has
  -- changed the value or by a call of `notify_all`, or is resuming the task.
  pub copy_no_lost_wakeup :
      (tbb : Tbb) (v : T) {n : ℕ} {w : tbb.World} {s : System tbb (Referred T) (Loc T)}
      → ((t : ℕ) → tbb.is_suspended w t ≡ false)
      → Reach tbb
          (atomic_ref_condition same)
          n
          (initial tbb (atomic_ref_condition same) (record { value = v }) (λ _. outside) w)
          s
      → (i : ℕ) (c : QueueId) (old : T) (o : Order) → tbb.is_suspended s.state.world i ≡ true
      → s.pc i ≡ parked c (wait c old o)
      → same s.state.mem.value old ≡ false
      → (j : ℕ) × (j < n)
        × ((sounds c (is_notifying c) (s.pc j) ≡ true) ⊎ (0 < count i (held c (s.pc j))))
  copy_no_lost_wakeup tbb v {n} {w} {s} quiet r i c old o sus at_old changed =
      heard_in_lane c unchanged (is_notifying c) Lands tbb (atomic_ref_condition same) n
        (record { value = v }) (λ _. outside) w (condition-Alarmed c) quiet r i sus
        (rw at_old (own_lane c (wait c old o))) (rw at_old changed)
