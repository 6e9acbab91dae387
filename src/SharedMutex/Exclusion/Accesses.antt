-- ===== src/SharedMutex/Exclusion/Accesses.antt =====
-- The accesses of src/shared_mutex.cpp and the ownership of `shared_mutex`.
use coopsync_tbb.Base.{
  ℕ, ◌+◌, ◌<◌, ◌≤◌, ◌≡◌, refl, Bool, true, arith, update, total-add-le, le-total, negsuc, is_pos,
}
use coopsync_tbb.Tbb.{Tbb}
use coopsync_tbb.Machine.{
  primary, secondary, Pc, at, recheck, parked, resuming, place, State, perform,
}
use coopsync_tbb.Machine.Wakes.{wakes, le-total_wakes, total_wakes_lem}
use coopsync_tbb.Machine.Waits.{PcWaits}
use coopsync_tbb.SharedMutex.{
  SharedMutex, Loc, outside, try, lock, wait, writer, unlock, try_shared, try_shared_loop,
  lock_shared, lock_shared_loop, wait_shared, reader, unlock_shared, unlock_shared_loop, transition,
  hand_over, clear, wake_readers, action, Allowed,
}
use coopsync_tbb.SharedMutex.Exclusion.Invariant.{
  Owns, Goes, writes, write_token, reads, moves, depth, free_writes, readers, IsCounted, Inv,
  settle,
}

module _ (tbb : Tbb) (n : ℕ) where
  -- An action that is one access of `m_state`.
  pub access-Inv :
      (i : ℕ) (s : State tbb SharedMutex Loc) (pc : ℕ → Pc SharedMutex Loc) (l l' : Loc)
      (m : SharedMutex)
      → i < n
      → pc i ≡ at l
      → writes l' + free_writes m ≡ writes l + free_writes s.mem
      → (reads l' + readers s.mem.state ≡ reads l + readers m.state)
        × (moves l' + depth s.mem.state ≡ moves l + depth m.state)
      → IsCounted l'
      → Inv tbb n s pc
      → Inv tbb n (record s { mem = m }) (update pc i (at l'))
  access-Inv i s pc l l' m lt e w r c v =
      settle tbb n i s (record s { mem = m }) pc (at l) (at l') lt e (λ j ne. refl) w r c v

  module _ (i : ℕ) (s : State tbb SharedMutex Loc) (pc : ℕ → Pc SharedMutex Loc) (lt : i < n)
      (v : Inv tbb n s pc) where
    moves-le-wakes :
        (p : Pc SharedMutex Loc) (b : Bool)
        → PcWaits Owns Goes p
        → moves (place p) ≤ wakes write_token p b
    moves-le-wakes (at l) b w = ground arith
    moves-le-wakes (recheck primary pred l) b w = ground arith
    moves-le-wakes (recheck secondary pred l) b w = ground arith
    moves-le-wakes (parked primary l) b w = ground arith
    moves-le-wakes (parked secondary l) b w = ground arith
    moves-le-wakes (resuming q ts l) b w = ground arith

    -- A task that has the write token finds `m_state` at the value that goes with its location.
    pub owned :
        (l : Loc)
        → ((j : ℕ) → PcWaits Owns Goes (pc j))
        → pc i ≡ at l
        → writes l ≡ 1
        → s.mem.state ≡ negsuc (moves l)
    owned l ws e one =
        let room =
          total-add-le n (λ j. moves (place (pc j)))
            (λ j. wakes write_token (pc j) (tbb.is_suspended s.world j)) i lt
            (λ j. moves-le-wakes (pc j) (tbb.is_suspended s.world j) (ws j)) in
        ground (
          arith,
          le-total_wakes tbb write_token n s pc i lt,
          total_wakes_lem tbb write_token n s pc,
          le-total n (λ j. moves (place (pc j))) i lt,
          v.one_writer,
          v.all_moves,
        )

    -- A task that owns the lock for reading is counted in `m_state`.
    shared : (l : Loc) → pc i ≡ at l → reads l ≡ 1 → is_pos s.mem.state ≡ true
    shared l e one = ground (arith, le-total n (λ j. reads (place (pc j))) i lt, v.all_readers)

    pub access-Keeps :
        (luck : Bool) (l : Loc)
        → pc i ≡ at l
        → Allowed l s.mem
        → ((j : ℕ) → PcWaits Owns Goes (pc j))
        → Inv tbb n
            (perform tbb s (action luck l s.mem)).0
            (update pc i (perform tbb s (action luck l s.mem)).1)
    unfolding perform action
    access-Keeps luck outside e a ws =
        access-Inv i s pc outside outside s.mem lt e refl (refl, refl) tt v
    access-Keeps luck try e a ws =
        access-Inv i s pc try _ _ lt e (ground arith) (ground arith) (ground arith) v
    access-Keeps luck lock e a ws =
        access-Inv i s pc lock _ _ lt e (ground arith) (ground arith) (ground arith) v
    access-Keeps luck wait e a ws =
        settle tbb n i s _ pc (at (wait)) _ lt e (λ j ne. ground arith) (ground (arith))
          (ground (arith)) (ground (arith)) v
    access-Keeps luck writer e a ws =
        access-Inv i s pc writer writer s.mem lt e refl (refl, refl) tt v
    access-Keeps luck unlock e a ws =
        settle tbb n i s _ pc (at (unlock)) _ lt e (λ j ne. ground arith) (ground (arith))
          (ground (arith)) (ground (arith)) v
    access-Keeps luck try_shared e a ws =
        access-Inv i s pc try_shared _ s.mem lt e refl (refl, refl) tt v
    access-Keeps luck (try_shared_loop z) e a ws =
        settle tbb n i s _ pc (at (try_shared_loop z)) _ lt e (λ j ne. ground arith)
          (ground (arith)) (ground (arith)) (ground (arith)) v
    access-Keeps luck lock_shared e a ws =
        access-Inv i s pc lock_shared _ s.mem lt e refl (refl, refl) tt v
    access-Keeps luck (lock_shared_loop z) e a ws =
        settle tbb n i s _ pc (at (lock_shared_loop z)) _ lt e (λ j ne. ground arith)
          (ground (arith)) (ground (arith)) (ground (arith)) v
    access-Keeps luck wait_shared e a ws =
        settle tbb n i s _ pc (at (wait_shared)) _ lt e (λ j ne. ground arith) (ground (arith))
          (ground (arith)) (ground (arith)) v
    access-Keeps luck reader e a ws =
        access-Inv i s pc reader reader s.mem lt e refl (refl, refl) tt v
    access-Keeps luck unlock_shared e a ws =
        access-Inv i s pc unlock_shared _ s.mem lt e refl (refl, refl) (shared unlock_shared e refl)
          v
    access-Keeps luck (unlock_shared_loop z) e a ws =
        settle tbb n i s _ pc (at (unlock_shared_loop z)) _ lt e (λ j ne. ground arith)
          (ground (arith, shared (unlock_shared_loop z) e refl))
          (ground (arith, shared (unlock_shared_loop z) e refl))
          (ground (arith, shared (unlock_shared_loop z) e refl)) v
    access-Keeps luck transition e a ws =
        let neg = owned transition ws e refl in
        access-Inv i s pc transition _ _ lt e (ground arith) (ground arith) tt v
    access-Keeps luck hand_over e a ws =
        settle tbb n i s _ pc (at (hand_over)) _ lt e (λ j ne. ground arith) (ground (arith))
          (ground (arith)) (ground (arith)) v
    access-Keeps luck clear e a ws =
        let neg = owned clear ws e refl in
        access-Inv i s pc clear _ _ lt e (ground arith) (ground arith) tt v
    access-Keeps luck wake_readers e a ws =
        settle tbb n i s _ pc (at wake_readers) _ lt e (λ j ne. refl) refl (refl, refl) tt v
