-- ===== src/Machine/Local.antt =====
-- What one step of one task changes in the accounts of the wait queues.
use coopsync_tbb.Base.{
  ◌⊎◌, ℕ, ◌+◌, ◌<◌, ◌≡◌, inl, inr, Bool, true, false, List, [], ◌∷◌, arith, Bool-cases, update,
  count, count-append, count-take-drop, total_change,
}
use coopsync_tbb.Tbb.{Tbb}
use coopsync_tbb.Machine.{
  QueueId, Action, access, wait_if, resume_one, resume_n, resume_all, Pc, at, recheck, resuming,
  State, perform, suspend_if,
}
use coopsync_tbb.Machine.Occupancy.{held, is_parked, weight, Accounts}

module _ (tbb : Tbb) {M L : Type 0} where
  -- What one step of task `i` changes, with nothing said of the other tasks.
  pub record Local (i : ℕ) (s : State tbb M L) (pc : ℕ → Pc M L) (r : State tbb M L × Pc M L)
      : Type 0 where
    pub moved :
        (q : QueueId) (t : ℕ)
        → count t (r.0.queue q) + count t (held q r.1) + weight tbb q t s pc
          ≡ count t (s.queue q) + count t (held q (pc i)) + weight tbb q t r.0 (update pc i r.1)
    pub parks : (t : ℕ) → tbb.is_suspended r.0.world t ≡ true → is_parked (update pc i r.1 t) ≡ true
    pub fresh :
        (t : ℕ)
        → tbb.is_suspended r.0.world t ≡ true
        → (tbb.is_suspended s.world t ≡ true) ⊎ (i ≡ t)

  pub Local-Accounts :
      (n i : ℕ) (s : State tbb M L) (pc : ℕ → Pc M L) (r : State tbb M L × Pc M L)
      → i < n
      → Accounts tbb n (record { state = s; pc = pc })
      → Local i s pc r
      → Accounts tbb n (record { state = r.0; pc = update pc i r.1 })
  Local-Accounts n i s pc r lt acc loc = record {
    balanced = λ q t.
        let change =
          total_change n (λ j. count t (held q (pc j))) (λ j. count t (held q (update pc i r.1 j)))
            i lt (λ j ne. ground arith) in
        let self : count t (held q (update pc i r.1 i)) ≡ count t (held q r.1) = ground arith in
        omega (arith, acc.balanced q t, loc.moved q t);
    parks = loc.parks;
    in_range =
        λ t h. elim (loc.fresh t h) [ inl old ↦ acc.in_range t old | inr e ↦ ground (arith, e) ];
  }

module _ (tbb : Tbb) {M L : Type 0} (i : ℕ) (s : State tbb M L) (pc : ℕ → Pc M L) where
  -- The premises on task `i` when it stands at a location, and is therefore not suspended.
  pub record Awake : Type 0 where
    pub awake : tbb.is_suspended s.world i ≡ false
    pub parks : (t : ℕ) → tbb.is_suspended s.world t ≡ true → is_parked (pc t) ≡ true

  pub perform-Local :
      (a : Action M L) (l : L) → pc i ≡ at l → Awake → Local tbb i s pc (perform tbb s a)
  unfolding perform
  perform-Local (access m l') l e w = record {
    moved = λ q t. ground (arith, w.awake);
    parks = λ t h. ground (arith, w.awake, w.parks t);
    fresh = λ t h. ground (
      arith,
      tbb.is_suspended-suspend s.world i t,
      tbb.is_suspended-resume (tbb.suspend s.world i) i t,
    );
  }
  perform-Local (wait_if q' pred l') l e w = elim (Bool-cases (pred s.mem).0) [
    | inl yes' ↦ rw yes' (record {
      moved = λ q t. ground (arith, w.awake);
      parks = λ t h. ground (arith, w.awake, w.parks t);
      fresh = λ t h. ground (
        arith,
        tbb.is_suspended-suspend s.world i t,
        tbb.is_suspended-resume (tbb.suspend s.world i) i t,
      );
    })
    | inr no' ↦ rw no' (record {
      moved = λ q t. ground (arith, w.awake);
      parks = λ t h. ground (arith, w.awake, w.parks t);
      fresh = λ t h. ground (
        arith,
        tbb.is_suspended-suspend s.world i t,
        tbb.is_suspended-resume (tbb.suspend s.world i) i t,
      );
    })
  ]
  perform-Local (resume_one q' f) l e w = record {
    moved = λ q t. ground (arith, w.awake);
    parks = λ t h. ground (arith, w.awake, w.parks t);
    fresh = λ t h. ground (
      arith,
      tbb.is_suspended-suspend s.world i t,
      tbb.is_suspended-resume (tbb.suspend s.world i) i t,
    );
  }
  perform-Local (resume_n q' k l') l e w = record {
    moved = λ q t. ground (arith, w.awake, count-take-drop t k (s.queue q));
    parks = λ t h. ground (arith, w.awake, w.parks t);
    fresh = λ t h. ground (
      arith,
      tbb.is_suspended-suspend s.world i t,
      tbb.is_suspended-resume (tbb.suspend s.world i) i t,
    );
  }
  perform-Local (resume_all q' l') l e w = record {
    moved = λ q t. ground (arith, w.awake);
    parks = λ t h. ground (arith, w.awake, w.parks t);
    fresh = λ t h. ground (
      arith,
      tbb.is_suspended-suspend s.world i t,
      tbb.is_suspended-resume (tbb.suspend s.world i) i t,
    );
  }

  pub suspend_if-Local :
      (q' : QueueId) (pred : M → Bool × M) (l : L) (r : Bool × M)
      → pc i ≡ recheck q' pred l
      → Awake
      → Local tbb i s pc (suspend_if tbb i s q' r l)
  unfolding suspend_if
  suspend_if-Local q' pred l (true, m) e w = record {
    moved = λ q t. ground (
      arith,
      w.awake,
      tbb.is_suspended-suspend s.world i t,
      count-append t (s.queue q') (i ∷ []),
    );
    parks = λ t h. ground (arith, w.awake, w.parks t, tbb.is_suspended-suspend s.world i t);
    fresh = λ t h. ground (
      arith,
      tbb.is_suspended-suspend s.world i t,
      tbb.is_suspended-resume (tbb.suspend s.world i) i t,
    );
  }
  suspend_if-Local q' pred l (false, m) e w = record {
    moved = λ q t. ground (
      arith,
      w.awake,
      tbb.is_suspended-suspend s.world i t,
      tbb.is_suspended-resume (tbb.suspend s.world i) i t,
    );
    parks = λ t h. ground (
      arith,
      w.awake,
      w.parks t,
      tbb.is_suspended-suspend s.world i t,
      tbb.is_suspended-resume (tbb.suspend s.world i) i t,
    );
    fresh = λ t h. ground (
      arith,
      tbb.is_suspended-suspend s.world i t,
      tbb.is_suspended-resume (tbb.suspend s.world i) i t,
    );
  }

  pub resume-Local :
      (q' : QueueId) (t' : ℕ) (ts : List ℕ) (l : L)
      → pc i ≡ resuming q' (t' ∷ ts) l
      → weight tbb q' t' s pc ≡ 1
      → ((t : ℕ) → tbb.is_suspended s.world t ≡ true → is_parked (pc t) ≡ true)
      → Local tbb i s pc (record s { world = tbb.resume s.world t' }, resuming q' ts l)
  resume-Local q' t' ts l e up parks = record {
    moved = λ q t. ground (arith, tbb.is_suspended-resume s.world t' t, parks t);
    parks = λ t h. ground (arith, parks t, tbb.is_suspended-resume s.world t' t);
    fresh = λ t h. ground (arith, tbb.is_suspended-resume s.world t' t);
  }

  pub finish-Local :
      (p : Pc M L) (l : L)
      → pc i ≡ p
      → tbb.is_suspended s.world i ≡ false
      → ((q : QueueId) → held q p ≡ [])
      → ((t : ℕ) → tbb.is_suspended s.world t ≡ true → is_parked (pc t) ≡ true)
      → Local tbb i s pc (s, at l)
  finish-Local p l e awake none parks = record {
    moved = λ q t. ground (arith, none q);
    parks = λ t h. ground (arith, parks t);
    fresh = λ t h. ground (
      arith,
      tbb.is_suspended-suspend s.world i t,
      tbb.is_suspended-resume (tbb.suspend s.world i) i t,
    );
  }
