-- ===== src/SharedMutex/Exclusion.antt =====
-- Who owns a `shared_mutex`: one writer, or a hand-over to one, or any number of readers.
pub mod Invariant
mod Accesses
mod Steps
use coopsync_tbb.Base.{
  ℕ, ◌<◌, ◌≤◌, ◌≡◌, ◌≢◌, refl, Bool, true, false, arith, total, total-zero, le-total, add-le-total,
  total-le_count, pos,
}
use coopsync_tbb.Tbb.{Tbb}
use coopsync_tbb.Machine.{Pc, at, place, System, initial, Reach}
use coopsync_tbb.Machine.Accounts.{initial-Accounts}
use coopsync_tbb.Machine.Waits.{PcWaits, Reach-PcWaits}
use coopsync_tbb.Machine.Wakes.{wakes, total_wakes_lem}
use coopsync_tbb.Machine.Induction.{Reach-ind}
use coopsync_tbb.SharedMutex.{
  SharedMutex, Loc, outside, writer, unlock, reader, unlock_shared, unlock_shared_loop,
  k_writer_locked, shared_mutex, Allowed, unlocked,
}
use Invariant.{Owns, Goes, waits, write_token, reads, Inv}
use Accesses.{owned}
use Steps.{runs, calls}

-- From the success of `lock` or `try_lock` to the call of `unlock`.
abbrev pub is_writing : Pc SharedMutex Loc → Bool
is_writing (at writer) = true
is_writing (at unlock) = true
is_writing _ = false

-- From the success of `lock_shared` or `try_lock_shared` until `unlock_shared` has changed `m_state`.
abbrev pub is_reading : Pc SharedMutex Loc → Bool
is_reading (at reader) = true
is_reading (at unlock_shared) = true
is_reading (at (unlock_shared_loop _)) = true
is_reading _ = false

module _ (tbb : Tbb) {n : ℕ} {w : tbb.World} {s : System tbb SharedMutex Loc}
    (quiet : (t : ℕ) → tbb.is_suspended w t ≡ false)
    (r : Reach tbb shared_mutex n (initial tbb shared_mutex unlocked (λ _. outside) w) s) where
  start-Inv :
      Inv tbb n
        (initial tbb shared_mutex unlocked (λ _. outside) w).state
        (initial tbb shared_mutex unlocked (λ _. outside) w).pc
  start-Inv =
      let none = total-zero n (λ j. 0) (λ j lt. refl) in
      let lem =
        total_wakes_lem tbb write_token n (initial tbb shared_mutex unlocked (λ _. outside) w).state
          (initial tbb shared_mutex unlocked (λ _. outside) w).pc in
      record { one_writer = omega arith; all_readers = none; all_moves = none; counted = λ j. tt }

  -- Every reachable state has the invariant.
  pub reached : Inv tbb n s.state s.pc
  reached =
      Reach-ind tbb shared_mutex n Owns Goes waits (Inv tbb n) (runs tbb n) (calls tbb n)
        (initial-Accounts tbb shared_mutex n unlocked (λ _. outside) w quiet) (λ j. tt) start-Inv r

  all_waits : (j : ℕ) → PcWaits Owns Goes (s.pc j)
  all_waits = Reach-PcWaits Owns Goes tbb shared_mutex waits (λ j. tt) r

  -- While a task below `n` writes, no other one writes or reads.
  pub writer_excludes :
      (i j : ℕ)
      → i < n
      → j < n
      → i ≢ j
      → is_writing (s.pc i) ≡ true
      → (is_writing (s.pc j) ≡ false) × (is_reading (s.pc j) ≡ false)
  writer_excludes i j lti ltj ne hi =
      let f : ℕ → ℕ = λ k. wakes write_token (s.pc k) (tbb.is_suspended s.state.world k) in
      let two = add-le-total n f i j lti ltj ne in
      let lem = total_wakes_lem tbb write_token n s.state s.pc in
      let read = le-total n (λ k. reads (place (s.pc k))) j ltj in
      (ground (arith, reached.one_writer), ground (arith, reached.one_writer, reached.all_readers))

  -- While `m_state` is not negative, it is the number of the tasks that have a read ownership,
  -- and so at most `n`.
  pub readers_counted :
      (k : ℕ) → s.state.mem.state ≡ pos k → (k ≡ total n (λ j. reads (place (s.pc j)))) × (k ≤ n)
  readers_counted k e =
      let all = reached.all_readers in
      let few = total-le_count n (λ j. reads (place (s.pc j))) (λ j. ground arith) in
      (ground arith, ground arith)

  -- Wherever a task below `n` stands, the assertion on its argument holds: `m_state` is
  -- `k_writer_locked` at `unlock`, and the loaded state is positive in `unlock_shared`.
  pub assertions_hold : (i : ℕ) (l : Loc) → i < n → s.pc i ≡ at l → Allowed l s.state.mem
  assertions_hold i unlock lt e = owned tbb n i s.state s.pc lt reached unlock all_waits e refl
  assertions_hold i (unlock_shared_loop z) lt e = ground (arith, reached.counted i)
  assertions_hold i _ lt e = tt

  -- While a task below `n` has got the write lock, `m_state` is `k_writer_locked`, as the assertion at
  -- the end of `lock` says.
  pub writer_locked : (i : ℕ) → i < n → s.pc i ≡ at writer → s.state.mem.state ≡ k_writer_locked
  writer_locked i lt e = owned tbb n i s.state s.pc lt reached writer all_waits e refl
