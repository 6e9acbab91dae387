-- ===== src/SharedMutex/Exclusion/Invariant.antt =====
-- The ownership of `shared_mutex` in src/shared_mutex.cpp as numbers: one write token, which
-- `m_state`, a task or a hand-over has, and the read ownerships.
use coopsync_tbb.Base.{
  ℕ, ◌+◌, ◌<◌, ◌≡◌, ◌≢◌, refl, Bool, true, false, arith, if◌then◌else◌, ◌==◌, update, total,
  total_change, ℤ, pos, negsuc, is_neg, is_pos, Bool-cases, inl, inr,
}
use coopsync_tbb.Tbb.{Tbb}
use coopsync_tbb.Machine.{QueueId, primary, secondary, Pc, place, State}
use coopsync_tbb.Machine.Wakes.{Weights, wakes, total_wakes, total_wakes_change}
use coopsync_tbb.Machine.Waits.{ActionWaits}
use coopsync_tbb.SharedMutex.{
  SharedMutex, Loc, outside, try, lock, wait, writer, unlock, try_shared, try_shared_loop,
  lock_shared, lock_shared_loop, wait_shared, reader, unlock_shared, unlock_shared_loop, transition,
  hand_over, clear, wake_readers, action, cannot_lock,
}

-- A writer's wait ends with the lock taken, a reader's starts again.
abbrev pub Owns : QueueId → (SharedMutex → Bool × SharedMutex) → Loc → Type 0
Owns primary pred l = (m : SharedMutex) → pred m ≡ cannot_lock m
Owns secondary pred l = (m : SharedMutex) → pred m ≡ (is_neg m.state, m)

abbrev pub Goes : QueueId → Loc → Type 0
Goes primary l = l ≡ writer
Goes secondary l = l ≡ lock_shared

pub waits : (luck : Bool) (l : Loc) (m : SharedMutex) → ActionWaits Owns Goes (action luck l m)
unfolding action
waits luck wait m = (λ m'. refl, refl)
waits luck wait_shared m = (λ m'. refl, refl)
waits luck outside m = tt
waits luck try m = tt
waits luck lock m = tt
waits luck writer m = tt
waits luck unlock m = tt
waits luck try_shared m = tt
waits luck (try_shared_loop z) m = ground arith
waits luck lock_shared m = tt
waits luck (lock_shared_loop z) m = ground arith
waits luck reader m = tt
waits luck unlock_shared m = tt
waits luck (unlock_shared_loop z) m = ground arith
waits luck transition m = tt
waits luck hand_over m = tt
waits luck clear m = tt
waits luck wake_readers m = tt

-- The write token of a location.
abbrev pub writes : Loc → ℕ
writes writer = 1
writes unlock = 1
writes transition = 1
writes hand_over = 1
writes clear = 1
writes _ = 0

-- A resumed writer takes the token over; a resumed reader gets nothing.
abbrev pub write_token : Weights Loc
write_token = record {
  power = writes;
  looking = 0;
  lane = λ q. elim q [ primary ↦ true | secondary ↦ false ];
}

-- The read ownership of a location.
abbrev pub reads : Loc → ℕ
reads reader = 1
reads unlock_shared = 1
reads (unlock_shared_loop _) = 1
reads _ = 0

abbrev pub free_writes : SharedMutex → ℕ
free_writes m = if is_neg m.state then 0 else 1

abbrev pub readers : ℤ → ℕ
readers (pos k) = k
readers (negsuc k) = 0

-- The last reader, between its two changes of `m_state`.
abbrev pub moves : Loc → ℕ
moves transition = 1
moves _ = 0

-- By how much `m_state` lies below `k_writer_locked`.
abbrev pub depth : ℤ → ℕ
depth (pos k) = 0
depth (negsuc k) = k

-- The local variable of the loop of `unlock_shared` counts at least this reader.
abbrev pub IsCounted : Loc → Type 0
IsCounted (unlock_shared_loop z) = is_pos z ≡ true
IsCounted _ = Unit {0}

module _ (tbb : Tbb) (n : ℕ) where
  pub record Inv (s : State tbb SharedMutex Loc) (pc : ℕ → Pc SharedMutex Loc) : Type 0 where
    pub one_writer : total_wakes tbb write_token n s pc + free_writes s.mem ≡ 1
    pub all_readers : total n (λ j. reads (place (pc j))) ≡ readers s.mem.state
    pub all_moves : total n (λ j. moves (place (pc j))) ≡ depth s.mem.state
    pub counted : (j : ℕ) → IsCounted (place (pc j))

  module _ (i : ℕ) (s s' : State tbb SharedMutex Loc) (pc : ℕ → Pc SharedMutex Loc)
      (p p' : Pc SharedMutex Loc) (lt : i < n) (e : pc i ≡ p) where
    -- A step that moves the tokens of task `i` only.
    pub settle :
        ((j : ℕ) → i ≢ j → tbb.is_suspended s'.world j ≡ tbb.is_suspended s.world j)
        → wakes write_token p' (tbb.is_suspended s'.world i) + free_writes s'.mem
          ≡ wakes write_token p (tbb.is_suspended s.world i) + free_writes s.mem
        → (reads (place p') + readers s.mem.state ≡ reads (place p) + readers s'.mem.state)
          × (moves (place p') + depth s.mem.state ≡ moves (place p) + depth s'.mem.state)
        → IsCounted (place p')
        → Inv s pc
        → Inv s' (update pc i p')
    settle same w r c v = record {
      one_writer =
          let change = total_wakes_change tbb write_token n i s s' pc p' lt same in
          ground (arith, v.one_writer);
      all_readers =
          let after : ℕ → ℕ = λ j. reads (place (update pc i p' j)) in
          let before : ℕ → ℕ = λ j. reads (place (pc j)) in
          let change = total_change n after before i lt (λ j ne. ground arith) in
          let self : after i ≡ reads (place p') = ground arith in
          let old : before i ≡ reads (place p) = ground arith in omega (arith, v.all_readers);
      all_moves =
          let after : ℕ → ℕ = λ j. moves (place (update pc i p' j)) in
          let before : ℕ → ℕ = λ j. moves (place (pc j)) in
          let change = total_change n after before i lt (λ j ne. ground arith) in
          let self : after i ≡ moves (place p') = ground arith in
          let old : before i ≡ moves (place p) = ground arith in omega (arith, v.all_moves);
      counted = λ j. elim (Bool-cases (i == j)) [ inl eq ↦ rw eq c | inr ne ↦ rw ne (v.counted j) ];
    }
