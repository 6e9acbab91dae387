-- ===== src/Future/Concurrent/Waits.antt =====
-- The one wait of `shared_state` in include/coopsync_tbb/future.hpp.
use coopsync_tbb.Base.{◌⊎◌, inl, inr, Bool-cases, Bool, not}
use coopsync_tbb.Machine.{QueueId, primary}
use coopsync_tbb.Machine.Waits.{ActionWaits}
use coopsync_tbb.Future.{Status, broken, transition, is_empty, ready}
use coopsync_tbb.Future.Concurrent.{
  Cell, Loc, outside, set_value, emplace, publish_value, set_exception, keep, publish_exception,
  break, wake, refused, wait, look, fetch, finished, try_exchange, try_emplace, action,
}

module _ {V E : Type 0} (construct : V → E ⊎ V) where
  exchange-waits :
      (Waits : QueueId → (Cell V E → Bool × Cell V E) → Loc V E → Type 0)
      (Lands : QueueId → Loc V E → Type 0) (m : Cell V E) (desired : Status)
      (success failure : Loc V E)
      → ActionWaits Waits Lands (try_exchange m desired success failure)
  exchange-waits W D m desired success failure = elim (Bool-cases (is_empty m.status)) [
    | inl free ↦ rw free tt
    | inr full ↦ rw full tt
  ]

  emplace-waits :
      (Waits : QueueId → (Cell V E → Bool × Cell V E) → Loc V E → Type 0)
      (Lands : QueueId → Loc V E → Type 0) (m : Cell V E) (r : E ⊎ V)
      → ActionWaits Waits Lands (try_emplace m r)
  emplace-waits W D m (inl e) = tt
  emplace-waits W D m (inr w) = tt

  -- What holds of the one wait of the program holds of all its actions.
  pub waits :
      (Waits : QueueId → (Cell V E → Bool × Cell V E) → Loc V E → Type 0)
      (Lands : QueueId → Loc V E → Type 0)
      → Waits primary (λ m. (not (ready m.status), m)) look
      → Lands primary look
      → (luck : Bool) (l : Loc V E) (m : Cell V E)
      → ActionWaits Waits Lands (action construct luck l m)
  unfolding action
  waits W D w d luck wait m = (w, d)
  waits W D w d luck outside m = tt
  waits W D w d luck (set_value v) m = exchange-waits W D m transition _ _
  waits W D w d luck (emplace v) m = emplace-waits W D m (construct v)
  waits W D w d luck publish_value m = tt
  waits W D w d luck (set_exception e) m = exchange-waits W D m transition _ _
  waits W D w d luck (keep e) m = tt
  waits W D w d luck publish_exception m = tt
  waits W D w d luck break m = exchange-waits W D m broken _ _
  waits W D w d luck wake m = tt
  waits W D w d luck (refused e) m = tt
  waits W D w d luck look m = tt
  waits W D w d luck (fetch st) m = tt
  waits W D w d luck (finished g) m = tt
