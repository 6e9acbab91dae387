-- ===== src/ConditionVariable/LostWakeup.antt =====
-- The window in `wait` of include/coopsync_tbb/condition_variable.hpp between `lock.unlock()` and
-- `wait_if`, where the task neither holds the lock nor stands in the queue.
use coopsync_tbb.Base.{ℕ, ◌<◌, ◌≡◌, ◌≢◌, refl, Bool, true, [], ◌∷◌, arith}
use coopsync_tbb.Tbb.{Tbb}
use coopsync_tbb.Machine.{
  Pc, at, recheck, parked, resuming, System, Permitted, perform, suspend_if, exec, step, run, Reach,
  here, next, primary,
}
use coopsync_tbb.ConditionVariable.{
  Lockable, Shared, Loc, sleep, relock, notify_all, notified, action, condition_variable,
}

module _ (K : Lockable) {D : Type 0} (pred : D → Bool) (tbb : Tbb) where
  -- Task `i` is in `wait` and has released the lock; task `j` is about to notify all waiters, of whom
  -- there is none.
  pub record Window (n i j : ℕ) (b h : Bool) (s : System tbb (Shared K D) (Loc D)) : Type 0 where
    pub i_below : i < n
    pub j_below : j < n
    pub distinct : i ≢ j
    pub waiting : s.pc i ≡ at (sleep b)
    pub notifying : s.pc j ≡ at (notify_all h)
    pub nobody : s.state.queue primary ≡ []

  -- The notification is over, and task `i` sleeps in the queue, with the same data.
  pub record Stranded (i j : ℕ) (h : Bool) (s t : System tbb (Shared K D) (Loc D)) : Type 0 where
    pub over : t.pc j ≡ at (notified h)
    pub asleep : tbb.is_suspended t.state.world i ≡ true
    pub queued : t.state.queue primary ≡ i ∷ []
    pub same_data : t.state.mem.guarded ≡ s.state.mem.guarded

  Permitted-any :
      (p : Pc (Shared K D) (Loc D)) (m : Shared K D) → Permitted tbb (condition_variable K pred) p m
  Permitted-any (at l) m = tt
  Permitted-any (recheck q p l) m = tt
  Permitted-any (parked q l) m = tt
  Permitted-any (resuming q ts l) m = tt

  module _ (n i j : ℕ) (b h : Bool) (s : System tbb (Shared K D) (Loc D))
      (o : Window n i j b h s) where
    open o use {distinct, waiting, notifying, nobody}

    abbrev one : ℕ → System tbb (Shared K D) (Loc D) → System tbb (Shared K D) (Loc D)
    one k t = step tbb (condition_variable K pred) true k t

    first :
        ((one j s).pc j ≡ resuming primary [] (notified h))
        × ((one j s).pc i ≡ at (sleep b))
        × ((one j s).state.queue primary ≡ [])
        × ((one j s).state.mem ≡ s.state.mem)
    unfolding step exec perform action
    first = (ground arith, ground arith, rw notifying refl, rw notifying refl)

    second :
        ((one j (one j s)).pc j ≡ at (notified h))
        × ((one j (one j s)).pc i ≡ at (sleep b))
        × ((one j (one j s)).state.queue primary ≡ [])
        × ((one j (one j s)).state.mem ≡ s.state.mem)
    unfolding step exec perform
    second =
        (ground (arith, first.0), ground (arith, first.1), rw first.0 first.2, rw first.0 first.3)

    third :
        ((one i (one j (one j s))).pc i ≡ recheck primary (λ m. (true, m)) (relock b))
        × ((one i (one j (one j s))).pc j ≡ at (notified h))
        × ((one i (one j (one j s))).state.queue primary ≡ [])
        × ((one i (one j (one j s))).state.mem ≡ s.state.mem)
    unfolding step exec perform action
    third = (
      ground (arith, second.1),
      ground (arith, second.0),
      rw second.1 second.2,
      rw second.1 second.3,
    )

    abbrev s₃ : System tbb (Shared K D) (Loc D)
    s₃ = one i (one j (one j s))

    fourth :
        ((one i s₃).pc j ≡ at (notified h))
        × ((one i s₃).state.queue primary ≡ i ∷ [])
        × ((one i s₃).state.mem ≡ s.state.mem)
        × ((one i s₃).state.world ≡ tbb.suspend s₃.state.world i)
    unfolding step exec suspend_if
    fourth =
        (ground (arith, third.1), rw (third.0, third.2) refl, rw third.0 third.3, rw third.0 refl)

    -- From such a state, two steps of the notifying task and two of the waiting one lead to one where
    -- the notification is over and the waiting task sleeps in the queue; the data are as they were.
    pub missed_notification :
        (t : System tbb (Shared K D) (Loc D)) × Reach tbb (condition_variable K pred) n s t
        × Stranded i j h s t
    missed_notification = (
      one i s₃,
      next
          (next
            (next (next here (run true j o.j_below (Permitted-any _ _)))
              (run true j o.j_below (Permitted-any _ _)))
            (run true i o.i_below (Permitted-any _ _)))
          (run true i o.i_below (Permitted-any _ _)),
      record {
        over = fourth.0;
        asleep = rw fourth.3 (ground (arith, tbb.is_suspended-suspend s₃.state.world i i));
        queued = fourth.1;
        same_data = rw fourth.2 refl;
      },
    )
