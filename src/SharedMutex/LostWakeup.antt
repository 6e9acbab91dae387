-- ===== src/SharedMutex/LostWakeup.antt =====
-- The window in `unlock` and the last `unlock_shared` of src/shared_mutex.cpp between
-- `m_writer_waiters.resume_one()` and `m_state.store(0)`.
use coopsync_tbb.Base.{ℕ, ◌<◌, ◌≡◌, ◌≢◌, refl, true, [], ◌∷◌, arith, pos}
use coopsync_tbb.Tbb.{Tbb}
use coopsync_tbb.Machine.{
  Pc, at, recheck, resuming, System, Permitted, perform, suspend_if, exec, step, run, Reach, here,
  next, primary, secondary, set_queue,
}
use coopsync_tbb.SharedMutex.{
  SharedMutex, Loc, outside, writer, clear, wake_readers, k_writer_locked, writer_waiters,
  reader_waiters, cannot_lock, action, shared_mutex, Allowed,
}

module _ (tbb : Tbb) where
  Permitted-at :
      (l : Loc) (p : Pc SharedMutex Loc) (m : SharedMutex)
      → p ≡ at l
      → Allowed l m
      → Permitted tbb shared_mutex p m
  Permitted-at l p m e a = rw e a

  Permitted-recheck :
      (p : Pc SharedMutex Loc) (m : SharedMutex)
      → p ≡ recheck writer_waiters cannot_lock writer
      → Permitted tbb shared_mutex p m
  Permitted-recheck p m e = rw e tt

  Permitted-resuming :
      (p : Pc SharedMutex Loc) (m : SharedMutex)
      → p ≡ resuming reader_waiters [] outside
      → Permitted tbb shared_mutex p m
  Permitted-resuming p m e = rw e tt

  -- Task `i` releases the lock and has found no writer waiting; task `j` is a writer between the
  -- two tests of `wait_if`.
  pub record Window (n i j : ℕ) (s : System tbb SharedMutex Loc) : Type 0 where
    pub i_below : i < n
    pub j_below : j < n
    pub distinct : i ≢ j
    pub releasing : s.pc i ≡ at clear
    pub waiting : s.pc j ≡ recheck writer_waiters cannot_lock writer
    pub locked : s.state.mem.state ≡ k_writer_locked
    pub no_writers : s.state.queue writer_waiters ≡ []
    pub no_readers : s.state.queue reader_waiters ≡ []

  -- The lock is free, task `i` is done, and task `j` sleeps in the queue of the writers.
  pub record Stranded (i j : ℕ) (s t : System tbb SharedMutex Loc) : Type 0 where
    pub free : t.state.mem.state ≡ pos 0
    pub done : t.pc i ≡ at outside
    pub asleep : tbb.is_suspended t.state.world j ≡ true
    pub queued : t.state.queue writer_waiters ≡ j ∷ []
    pub others : (k : ℕ) → i ≢ k → j ≢ k → t.pc k ≡ s.pc k

  module _ (n i j : ℕ) (s : System tbb SharedMutex Loc) (o : Window n i j s) where
    open o use {distinct, releasing, waiting, locked, no_writers, no_readers}

    abbrev s₁ : System tbb SharedMutex Loc
    s₁ = step tbb shared_mutex true j s

    abbrev s₂ : System tbb SharedMutex Loc
    s₂ = step tbb shared_mutex true i s₁

    abbrev s₃ : System tbb SharedMutex Loc
    s₃ = step tbb shared_mutex true i s₂

    abbrev s₄ : System tbb SharedMutex Loc
    s₄ = step tbb shared_mutex true i s₃

    queued₁ : s₁.pc i ≡ at clear
    unfolding step exec suspend_if
    queued₁ = ground arith

    queue₁ : s₁.state.queue ≡ set_queue s.state.queue primary (j ∷ [])
    unfolding step exec suspend_if
    queue₁ = rw (waiting, locked, no_writers) refl

    world₁ : s₁.state.world ≡ tbb.suspend s.state.world j
    unfolding step exec suspend_if
    world₁ = rw (waiting, locked) refl

    others₁ : (k : ℕ) → j ≢ k → s₁.pc k ≡ s.pc k
    unfolding step exec suspend_if
    others₁ k ne = ground arith

    queue₂ :
        (s₂.pc i ≡ at wake_readers)
        × (s₂.state.mem.state ≡ pos 0)
        × (s₂.state.queue ≡ s₁.state.queue)
        × (s₂.state.world ≡ s₁.state.world)
    unfolding step exec perform action
    queue₂ = (ground (arith, queued₁), rw queued₁ refl, rw queued₁ refl, rw queued₁ refl)

    readers₂ : s₂.state.queue reader_waiters ≡ []
    readers₂ = rw (queue₂.2, queue₁) no_readers

    queue₃ :
        (s₃.pc i ≡ resuming reader_waiters [] outside)
        × (s₃.state.mem.state ≡ pos 0)
        × (s₃.state.queue ≡ set_queue s₂.state.queue secondary [])
        × (s₃.state.world ≡ s₂.state.world)
    unfolding step exec perform action
    queue₃ = (
      ground (arith, queue₂.0, readers₂),
      rw queue₂.0 queue₂.1,
      rw queue₂.0 refl,
      rw queue₂.0 refl,
    )

    queue₄ :
        (s₄.pc i ≡ at outside)
        × (s₄.state.mem.state ≡ pos 0)
        × (s₄.state.queue ≡ s₃.state.queue)
        × (s₄.state.world ≡ s₃.state.world)
    unfolding step exec perform
    queue₄ = (ground (arith, queue₃.0), rw queue₃.0 queue₃.1, rw queue₃.0 refl, rw queue₃.0 refl)

    others_same : (k : ℕ) → i ≢ k → j ≢ k → s₄.pc k ≡ s.pc k
    unfolding step
    others_same k ni nj = ground arith

    -- From a state where task `i` has found no waiting writer in `unlock` and is about to store 0,
    -- task `j` is between the two tests of its `wait_if`, and nobody waits in the queues, four steps
    -- of the two tasks lead to one where the lock is free, task `i` is done, and task `j` sleeps in
    -- the queue of the writers; all other tasks stand where they did.
    pub lost_wakeup :
        (t : System tbb SharedMutex Loc) × Reach tbb shared_mutex n s t × Stranded i j s t
    lost_wakeup = (
      s₄,
      next
          (next
            (next
              (next here (run true j o.j_below (Permitted-recheck (s.pc j) s.state.mem waiting)))
              (run true i o.i_below (Permitted-at clear (s₁.pc i) s₁.state.mem queued₁ tt)))
            (run true i o.i_below (Permitted-at wake_readers (s₂.pc i) s₂.state.mem queue₂.0 tt)))
          (run true i o.i_below (Permitted-resuming (s₃.pc i) s₃.state.mem queue₃.0)),
      record {
        free = queue₄.1;
        done = queue₄.0;
        asleep =
            rw (queue₄.3, queue₃.3, queue₂.3, world₁)
              (ground (arith, tbb.is_suspended-suspend s.state.world j j));
        queued = rw (queue₄.2, queue₃.2, queue₂.2, queue₁) refl;
        others = others_same;
      },
    )
