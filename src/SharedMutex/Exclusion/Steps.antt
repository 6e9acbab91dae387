-- ===== src/SharedMutex/Exclusion/Steps.antt =====
-- The steps of src/shared_mutex.cpp and the ownership of `shared_mutex`.
use coopsync_tbb.Base.{
  ℕ, ◌<◌, ◌≡◌, refl, Bool, true, false, List, [], ◌∷◌, arith, ◌==◌, update, total, total_congr,
  is_neg, Bool-cases, inl, inr,
}
use coopsync_tbb.Tbb.{Tbb}
use coopsync_tbb.Machine.{
  QueueId, primary, secondary, Pc, at, recheck, parked, resuming, place, State, suspend_if, exec,
}
use coopsync_tbb.Machine.Occupancy.{Accounts}
use coopsync_tbb.Machine.Accounts.{held-weight}
use coopsync_tbb.Machine.Wakes.{wakes, total_wakes-resume}
use coopsync_tbb.Machine.Induction.{RunKeeps, CallKeeps}
use coopsync_tbb.SharedMutex.{
  SharedMutex, Loc, writer, lock_shared, calls_try_lock, calls_lock, calls_unlock,
  calls_try_lock_shared, calls_lock_shared, calls_unlock_shared, cannot_lock, shared_mutex,
}
use coopsync_tbb.SharedMutex.Exclusion.Invariant.{
  Owns, Goes, waits, write_token, reads, moves, Inv, settle,
}
use coopsync_tbb.SharedMutex.Exclusion.Accesses.{access-Inv, access-Keeps}

module _ (tbb : Tbb) (n : ℕ) where
  module _ (i : ℕ) (s : State tbb SharedMutex Loc) (pc : ℕ → Pc SharedMutex Loc) (lt : i < n)
      (v : Inv tbb n s pc) where
    -- The second test of the `wait_if` of `lock`, and that of `lock_shared`.
    suspend_writer :
        (p : Pc SharedMutex Loc)
        → pc i ≡ p
        → wakes write_token p (tbb.is_suspended s.world i) ≡ 0
        → (reads (place p) ≡ 0) × (moves (place p) ≡ 0)
        → (r : Bool × SharedMutex) → r ≡ cannot_lock s.mem
        → Inv tbb n
            (suspend_if tbb i s primary r writer).0
            (update pc i (suspend_if tbb i s primary r writer).1)
    unfolding suspend_if
    suspend_writer p e w r (true, m) c =
        settle tbb n i s _ pc p _ lt e
          (λ j ne. ground (arith, tbb.is_suspended-suspend s.world i j))
          (ground (arith, tbb.is_suspended-suspend s.world i i)) (ground arith) (ground arith) v
    suspend_writer p e w r (false, m) c =
        settle tbb n i s _ pc p _ lt e
          (λ j ne. ground (
            arith,
            tbb.is_suspended-suspend s.world i j,
            tbb.is_suspended-resume (tbb.suspend s.world i) i j,
          ))
          (ground arith) (ground arith) (ground arith) v

    suspend_reader :
        (p : Pc SharedMutex Loc)
        → pc i ≡ p
        → wakes write_token p (tbb.is_suspended s.world i) ≡ 0
        → (reads (place p) ≡ 0) × (moves (place p) ≡ 0)
        → (r : Bool × SharedMutex) → r ≡ (is_neg s.mem.state, s.mem)
        → Inv tbb n
            (suspend_if tbb i s secondary r lock_shared).0
            (update pc i (suspend_if tbb i s secondary r lock_shared).1)
    unfolding suspend_if
    suspend_reader p e w r (true, m) c =
        settle tbb n i s _ pc p _ lt e
          (λ j ne. ground (arith, tbb.is_suspended-suspend s.world i j))
          (ground (arith, tbb.is_suspended-suspend s.world i i)) (ground arith) (ground arith) v
    suspend_reader p e w r (false, m) c =
        settle tbb n i s _ pc p _ lt e
          (λ j ne. ground (
            arith,
            tbb.is_suspended-suspend s.world i j,
            tbb.is_suspended-resume (tbb.suspend s.world i) i j,
          ))
          (ground arith) (ground arith) (ground arith) v

    resume-Keeps :
        (q : QueueId) (t : ℕ) (ts : List ℕ) (l : Loc)
        → Accounts tbb n (record { state = s; pc = pc })
        → pc i ≡ resuming q (t ∷ ts) l
        → Inv tbb n (record s { world = tbb.resume s.world t }) (update pc i (resuming q ts l))
    resume-Keeps q t ts l acc e = record {
      all_moves =
          let after : ℕ → ℕ = λ j. moves (place (update pc i (resuming q ts l) j)) in
          let before : ℕ → ℕ = λ j. moves (place (pc j)) in
          let same : total n after ≡ total n before =
            total_congr n after before (λ j lt'. ground arith) in
          omega (arith, v.all_moves);
      one_writer =
          let one =
            held-weight tbb shared_mutex n (record { state = s; pc = pc }) i t q acc lt
              (ground arith) in
          let same = total_wakes-resume tbb write_token n i t ts q l s pc lt acc e one in
          omega (arith, v.one_writer);
      all_readers =
          let after : ℕ → ℕ = λ j. reads (place (update pc i (resuming q ts l) j)) in
          let before : ℕ → ℕ = λ j. reads (place (pc j)) in
          let same : total n after ≡ total n before =
            total_congr n after before (λ j lt'. ground arith) in
          omega (arith, v.all_readers);
      counted = λ j. elim (Bool-cases (i == j)) [
        | inl eq ↦ rw eq (ground (arith, v.counted i))
        | inr ne ↦ rw ne (v.counted j)
      ];
    }

  pub runs : RunKeeps tbb shared_mutex n Owns Goes waits (Inv tbb n)
  unfolding exec
  runs luck i s pc (at l) acc lt e a w ws v = access-Keeps tbb n i s pc lt v luck l e a ws
  runs luck i s pc (recheck primary pred l) acc lt e a w ws v = rw w.1 (
      suspend_writer i s pc lt v (recheck primary pred l) e refl (ground (arith, w.1)) (pred s.mem)
        (w.0 s.mem))
  runs luck i s pc (recheck secondary pred l) acc lt e a w ws v = rw w.1 (
      suspend_reader i s pc lt v (recheck secondary pred l) e refl (ground (arith, w.1))
        (pred s.mem) (w.0 s.mem))
  runs luck i s pc (parked primary l) acc lt e a w ws v =
      settle tbb n i s s pc (parked primary l) _ lt e (λ j ne. refl) (ground (arith, w))
        (ground (arith, w)) (ground (arith, v.counted i)) v
  runs luck i s pc (parked secondary l) acc lt e a w ws v =
      settle tbb n i s s pc (parked secondary l) _ lt e (λ j ne. refl) (ground (arith, w))
        (ground (arith, w)) (ground (arith, v.counted i)) v
  runs luck i s pc (resuming q [] l) acc lt e a w ws v =
      settle tbb n i s s pc (resuming q [] l) _ lt e (λ j ne. refl) (ground arith) (refl, refl)
        (ground (arith, v.counted i)) v
  runs luck i s pc (resuming q (t ∷ ts) l) acc lt e a w ws v =
      resume-Keeps i s pc lt v q t ts l acc e

  pub calls : CallKeeps tbb shared_mutex n Owns Goes waits (Inv tbb n)
  calls i l l' s pc acc lt e calls_try_lock v =
      access-Inv tbb n i s pc l l' s.mem lt e refl (refl, refl) tt v
  calls i l l' s pc acc lt e calls_lock v =
      access-Inv tbb n i s pc l l' s.mem lt e refl (refl, refl) tt v
  calls i l l' s pc acc lt e calls_unlock v =
      access-Inv tbb n i s pc l l' s.mem lt e refl (refl, refl) tt v
  calls i l l' s pc acc lt e calls_try_lock_shared v =
      access-Inv tbb n i s pc l l' s.mem lt e refl (refl, refl) tt v
  calls i l l' s pc acc lt e calls_lock_shared v =
      access-Inv tbb n i s pc l l' s.mem lt e refl (refl, refl) tt v
  calls i l l' s pc acc lt e calls_unlock_shared v =
      access-Inv tbb n i s pc l l' s.mem lt e refl (refl, refl) tt v
