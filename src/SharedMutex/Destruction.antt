-- ===== src/SharedMutex/Destruction.antt =====
-- The destructor of src/shared_mutex.cpp.
use coopsync_tbb.Base.{
  ℕ, ◌<◌, ◌≡◌, refl, Bool, true, false, ◌&&◌, List, arith, int_eq, pos, total-zero,
}
use coopsync_tbb.Tbb.{Tbb}
use coopsync_tbb.Machine.{QueueId, at, place, System, initial, Reach}
use coopsync_tbb.Machine.Quiet.{is_nil, queues_empty}
use coopsync_tbb.Machine.Wakes.{wakes, total_wakes_lem}
use coopsync_tbb.SharedMutex.{
  SharedMutex, Loc, outside, writer_waiters, reader_waiters, shared_mutex, unlocked,
}
use coopsync_tbb.SharedMutex.Exclusion.{reached}
use coopsync_tbb.SharedMutex.Exclusion.Invariant.{write_token, reads}

-- What `~shared_mutex` asserts.
abbrev pub destructible : SharedMutex → (QueueId → List ℕ) → Bool
destructible m queue =
    int_eq m.state (pos 0) && is_nil (queue writer_waiters) && is_nil (queue reader_waiters)

-- In a reachable state where every task is outside the code of the `shared_mutex`, the assertions of
-- its destructor hold: `m_state` is 0 and nobody waits.
pub destructor_asserts :
    (tbb : Tbb) {n : ℕ} {w : tbb.World} {s : System tbb SharedMutex Loc}
    → ((t : ℕ) → tbb.is_suspended w t ≡ false)
    → Reach tbb shared_mutex n (initial tbb shared_mutex unlocked (λ _. outside) w) s
    → ((j : ℕ) → j < n → s.pc j ≡ at outside)
    → destructible s.state.mem s.state.queue ≡ true
destructor_asserts tbb {n} {w} {s} quiet r out =
    let inv = reached tbb quiet r in
    let nobody =
      queues_empty tbb shared_mutex unlocked (λ _. outside) quiet r (λ j lt. rw (out j lt) refl) in
    let no_readers = total-zero n (λ j. reads (place (s.pc j))) (λ j lt. rw (out j lt) refl) in
    let no_writer =
      total-zero n (λ j. wakes write_token (s.pc j) (tbb.is_suspended s.state.world j))
        (λ j lt. rw (out j lt) refl) in
    let lem = total_wakes_lem tbb write_token n s.state s.pc in
    ground (arith, nobody writer_waiters, nobody reader_waiters, inv.one_writer, inv.all_readers)
