-- ===== src/SharedMutex/Readers.antt =====
-- The wake-up of the readers in src/shared_mutex.cpp.
use coopsync_tbb.Base.{
  ℕ, ◌<◌, ◌≡◌, ◌⊎◌, inl, inr, refl, Bool, true, false, arith, count, not, ◌&&◌, Bool-cases, ℤ,
  is_neg, is_pos, int_eq, add_one, sub_one, above_one,
}
use coopsync_tbb.Tbb.{Tbb}
use coopsync_tbb.Machine.{QueueId, resume_all, parked, primary, secondary, System, initial, Reach}
use coopsync_tbb.Machine.Occupancy.{held}
use coopsync_tbb.Machine.Waits.{ActionWaits}
use coopsync_tbb.Machine.Alarm.{Alerts, WaitsFor, Alarmed, sounds}
use coopsync_tbb.Machine.Alarm.Heard.{heard_in_lane}
use coopsync_tbb.Machine.Alarm.Alone.{Prompt, Wakes, woken_in_lane}
use coopsync_tbb.SharedMutex.{
  SharedMutex, Loc, outside, try, lock, wait, writer, unlock, try_shared, try_shared_loop,
  lock_shared, lock_shared_loop, wait_shared, reader, unlock_shared, unlock_shared_loop, transition,
  hand_over, clear, wake_readers, reader_waiters, action, Call, calls_try_lock, calls_lock,
  calls_unlock, calls_try_lock_shared, calls_lock_shared, calls_unlock_shared, shared_mutex,
  unlocked, try_lock, k_writer_locked, k_transition, try_shared_round, unlock_shared_round,
}

-- A task that has released the lock and is about to resume the readers.
abbrev pub is_waking : Loc → Bool
is_waking wake_readers = true
is_waking _ = false

-- A reader waits while the lock is exclusive or changes hands.
abbrev barred : Loc → SharedMutex → Bool
barred lock_shared m = is_neg m.state
barred _ m = false

-- A reader lands in the loop of `lock_shared`, a writer behind its wait.
abbrev Lands : QueueId → Loc → Type 0
Lands primary l = l ≡ writer
Lands secondary l = l ≡ lock_shared

barred_on :
    (m m' : SharedMutex) (k : Loc)
    → (is_neg m.state ≡ true → is_neg m'.state ≡ true)
    → barred k m ≡ true
    → barred k m' ≡ true
barred_on m m' lock_shared stays h = stays h
barred_on m m' outside stays h = absurd (ground arith)
barred_on m m' try stays h = absurd (ground arith)
barred_on m m' lock stays h = absurd (ground arith)
barred_on m m' wait stays h = absurd (ground arith)
barred_on m m' writer stays h = absurd (ground arith)
barred_on m m' unlock stays h = absurd (ground arith)
barred_on m m' try_shared stays h = absurd (ground arith)
barred_on m m' (try_shared_loop z) stays h = absurd (ground arith)
barred_on m m' (lock_shared_loop z) stays h = absurd (ground arith)
barred_on m m' wait_shared stays h = absurd (ground arith)
barred_on m m' reader stays h = absurd (ground arith)
barred_on m m' unlock_shared stays h = absurd (ground arith)
barred_on m m' (unlock_shared_loop z) stays h = absurd (ground arith)
barred_on m m' transition stays h = absurd (ground arith)
barred_on m m' hand_over stays h = absurd (ground arith)
barred_on m m' clear stays h = absurd (ground arith)
barred_on m m' wake_readers stays h = absurd (ground arith)

-- `try_lock` ends no reader's wait.
try_lock_on : (m : SharedMutex) (k : Loc) → barred k m ≡ true → barred k (try_lock m).1 ≡ true
try_lock_on m k h = barred_on m (try_lock m).1 k (λ e. ground arith) h

module _ (luck : Bool) (m : SharedMutex) (z : ℤ) where
  -- A round of the loop of `try_lock_shared` changes `m_state` where it is not negative.
  try_shared-Alerts :
      (l success failure : Loc) (again : ℤ → Loc)
      → is_waking l ≡ false
      → Alerts secondary barred is_waking l m (try_shared_round luck m z success again failure)
  try_shared-Alerts l success failure again quiet = elim (Bool-cases (is_neg z)) [
    | inl e ↦ rw e (inr (quiet, λ k h. h))
    | inr e ↦ elim (Bool-cases (not luck && int_eq m.state z)) [
      | inl hit ↦
          rw (e, hit)
            (inr (
              quiet,
              λ k h. barred_on m (record { state = add_one z }) k (λ neg. absurd (ground arith)) h,
            ))
      | inr miss ↦ rw (e, miss) (inr (quiet, λ k h. h))
    ]
  ]

  -- So does one of the loop of `unlock_shared`.
  unlock_shared-Alerts :
      is_pos z ≡ true
      → Alerts secondary barred is_waking (unlock_shared_loop z) m (unlock_shared_round luck m z)
  unlock_shared-Alerts p = elim (Bool-cases (above_one z)) [
    | inl e ↦ elim (Bool-cases (not luck && int_eq m.state z)) [
      | inl hit ↦
          rw (e, hit)
            (inr (
              refl,
              λ k h. barred_on m (record { state = sub_one z }) k (λ neg. absurd (ground arith)) h,
            ))
      | inr miss ↦ rw (e, miss) (inr (refl, λ k h. h))
    ]
    | inr e ↦ elim (Bool-cases (not luck && int_eq m.state z)) [
      | inl hit ↦
          rw (e, hit)
            (inr (refl, λ k h. barred_on m (record { state = k_transition }) k (λ neg. refl) h))
      | inr miss ↦ rw (e, miss) (inr (refl, λ k h. h))
    ]
  ]

alerts :
    (luck : Bool) (l : Loc) (m : SharedMutex)
    → shared_mutex.Allowed l m
    → Alerts secondary barred is_waking l m (action luck l m)
unfolding action
alerts luck outside m a = inr (refl, λ k h. h)
alerts luck try m a = inr (refl, try_lock_on m)
alerts luck lock m a = inr (refl, try_lock_on m)
alerts luck wait m a = refl
alerts luck writer m a = inr (refl, λ k h. h)
alerts luck unlock m a = refl
alerts luck try_shared m a = inr (refl, λ k h. h)
alerts luck (try_shared_loop z) m a =
    try_shared-Alerts luck m z (try_shared_loop z) reader outside try_shared_loop refl
alerts luck lock_shared m a = inr (refl, λ k h. h)
alerts luck (lock_shared_loop z) m a =
    try_shared-Alerts luck m z (lock_shared_loop z) reader wait_shared lock_shared_loop refl
alerts luck wait_shared m a = refl
alerts luck reader m a = inr (refl, λ k h. h)
alerts luck unlock_shared m a = inr (refl, λ k h. h)
alerts luck (unlock_shared_loop z) m a = unlock_shared-Alerts luck m z a
alerts luck transition m a =
    inr (refl, λ k h. barred_on m (record { state = k_writer_locked }) k (λ e. refl) h)
alerts luck hand_over m a = refl
alerts luck clear m a = inl refl
alerts luck wake_readers m a = inl refl

waits :
    (luck : Bool) (l : Loc) (m : SharedMutex)
    → ActionWaits (WaitsFor secondary barred is_waking) Lands (action luck l m)
unfolding action
waits luck wait m = (λ m'. inr (refl, try_lock_on m'), refl)
waits luck wait_shared m = (λ m'. inl refl, refl)
waits luck outside m = tt
waits luck try m = tt
waits luck lock m = tt
waits luck writer m = tt
waits luck unlock m = tt
waits luck try_shared m = tt
waits luck (try_shared_loop z) m = ground arith
waits luck lock_shared m = tt
waits luck (lock_shared_loop z) m = ground arith
waits luck reader m = tt
waits luck unlock_shared m = tt
waits luck (unlock_shared_loop z) m = ground arith
waits luck transition m = tt
waits luck hand_over m = tt
waits luck clear m = tt
waits luck wake_readers m = tt

calls : (l l' : Loc) → Call l l' → is_waking l ≡ true → is_waking l' ≡ true
calls l l' calls_try_lock h = absurd (ground arith)
calls l l' calls_lock h = absurd (ground arith)
calls l l' calls_unlock h = absurd (ground arith)
calls l l' calls_try_lock_shared h = absurd (ground arith)
calls l l' calls_lock_shared h = absurd (ground arith)
calls l l' calls_unlock_shared h = absurd (ground arith)

shared_mutex-Alarmed : Alarmed secondary barred is_waking Lands shared_mutex
shared_mutex-Alarmed = record { acts = alerts; waits = waits; calls = calls }

wakes_at_once :
    (l : Loc) (m : SharedMutex)
    → is_waking l ≡ true
    → shared_mutex.Allowed l m × ((l' : Loc) × (action true l m ≡ resume_all reader_waiters l'))
unfolding action
wakes_at_once wake_readers m loud = (tt, (outside, refl))
wakes_at_once outside m loud = absurd (ground arith)
wakes_at_once try m loud = absurd (ground arith)
wakes_at_once lock m loud = absurd (ground arith)
wakes_at_once wait m loud = absurd (ground arith)
wakes_at_once writer m loud = absurd (ground arith)
wakes_at_once unlock m loud = absurd (ground arith)
wakes_at_once try_shared m loud = absurd (ground arith)
wakes_at_once (try_shared_loop z) m loud = absurd (ground arith)
wakes_at_once lock_shared m loud = absurd (ground arith)
wakes_at_once (lock_shared_loop z) m loud = absurd (ground arith)
wakes_at_once wait_shared m loud = absurd (ground arith)
wakes_at_once reader m loud = absurd (ground arith)
wakes_at_once unlock_shared m loud = absurd (ground arith)
wakes_at_once (unlock_shared_loop z) m loud = absurd (ground arith)
wakes_at_once transition m loud = absurd (ground arith)
wakes_at_once hand_over m loud = absurd (ground arith)
wakes_at_once clear m loud = absurd (ground arith)

shared_mutex-Prompt : Prompt secondary is_waking shared_mutex
shared_mutex-Prompt = record { quick = wakes_at_once }

-- In a reachable state where a task is suspended in `lock_shared` and `m_state` is not negative, some
-- task is about to resume all readers, or is resuming this one.
pub reader_no_lost_wakeup :
    (tbb : Tbb) {n : ℕ} {w : tbb.World} {s : System tbb SharedMutex Loc}
    → ((t : ℕ) → tbb.is_suspended w t ≡ false)
    → Reach tbb shared_mutex n (initial tbb shared_mutex unlocked (λ _. outside) w) s
    → (i : ℕ) → tbb.is_suspended s.state.world i ≡ true
    → s.pc i ≡ parked reader_waiters lock_shared
    → is_neg s.state.mem.state ≡ false
    → (j : ℕ) × (j < n)
      × ((sounds reader_waiters is_waking (s.pc j) ≡ true)
          ⊎ (0 < count i (held reader_waiters (s.pc j))))
reader_no_lost_wakeup tbb {n} {w} quiet r i sus home free =
    heard_in_lane secondary barred is_waking Lands tbb shared_mutex n unlocked (λ _. outside) w
      shared_mutex-Alarmed quiet r i sus (rw home refl) (rw home free)

-- In a reachable state where a task is suspended in `lock_shared` and `m_state` is not negative,
-- some task has a run of its own, in which no other task takes a step and after which the suspended
-- one is awake.
pub reader_woken :
    (tbb : Tbb) {n : ℕ} {w : tbb.World} {s : System tbb SharedMutex Loc}
    → ((t : ℕ) → tbb.is_suspended w t ≡ false)
    → Reach tbb shared_mutex n (initial tbb shared_mutex unlocked (λ _. outside) w) s
    → (i : ℕ) → tbb.is_suspended s.state.world i ≡ true
    → s.pc i ≡ parked reader_waiters lock_shared
    → is_neg s.state.mem.state ≡ false
    → (j : ℕ) × (j < n) × Wakes tbb shared_mutex j i s
reader_woken tbb {n} {w} quiet r i sus home free =
    woken_in_lane secondary barred is_waking Lands tbb shared_mutex n unlocked (λ _. outside) w
      shared_mutex-Alarmed shared_mutex-Prompt quiet r i sus (rw home refl) (rw home free)
