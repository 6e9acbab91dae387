-- ===== src/Barrier/ZeroArrival.antt =====
-- `arrive(0)` of include/coopsync_tbb/barrier.hpp, which its precondition permits, while the last
-- arrival of a phase completes it.
use coopsync_tbb.Base.{ℕ, ◌<◌, ◌≡◌, ◌≢◌, refl, subst, false, Bool, arith, update}
use coopsync_tbb.Tbb.{Tbb}
use coopsync_tbb.Machine.{
  Pc, at, System, access, Permitted, perform, exec, step, run, call, Reach, here, next,
}
use coopsync_tbb.Barrier.{
  Barrier, Loc, outside, arrive, subtract, complete, action, calls_arrive, Allowed, barrier,
}

module _ {D : Type 0} (completion : D → D) (tbb : Tbb) where
  step_access :
      (s : System tbb (Barrier D) Loc) (j : ℕ) (l l' : Loc) (m : Barrier D)
      → s.pc j ≡ at l
      → action completion false l s.state.mem ≡ access m l'
      → step tbb (barrier completion) false j s
        ≡ record { state = record (s.state) { mem = m }; pc = update s.pc j (at l') }
  unfolding step exec perform
  step_access s j l l' m e h = simp (e, h) refl

  Permitted-at :
      (p : Pc (Barrier D) Loc) (l : Loc) (m : Barrier D)
      → p ≡ at l
      → Allowed completion l m
      → Permitted tbb (barrier completion) p m
  Permitted-at p l m e a = rw e a

  module _ (n i j : ℕ) (s : System tbb (Barrier D) Loc) where
    abbrev s₁ : System tbb (Barrier D) Loc
    s₁ = record s { pc = update s.pc j (at (arrive 0 false)) }

    abbrev s₂ : System tbb (Barrier D) Loc
    s₂ = record s₁ { pc = update s₁.pc j (at (subtract 0 s.state.mem.phase false)) }

    abbrev s₃ : System tbb (Barrier D) Loc
    s₃ = record {
      state = record (s.state) { mem = record (s.state.mem) { expected = 0 } };
      pc = update s₂.pc j (at (complete s.state.mem.phase false));
    }

    loads : step tbb (barrier completion) false j s₁ ≡ s₂
    unfolding action
    loads =
        step_access s₁ j (arrive 0 false) (subtract 0 s.state.mem.phase false) s.state.mem
          (ground arith) refl

    subtracts : s.state.mem.expected ≡ 0 → step tbb (barrier completion) false j s₂ ≡ s₃
    unfolding action
    subtracts none' =
        step_access s₂ j (subtract 0 s.state.mem.phase false) (complete s.state.mem.phase false)
          (record (s.state.mem) { expected = 0 }) (ground arith) (rw none' refl)

    -- From a state where task `i` completes a phase, so that no arrival is expected, and task `j` is
    -- outside the barrier, an arrival of task `j` by zero leads to a state where both are about to
    -- call the completion function.
    pub twice_completed :
        (p : ℕ) (b : Bool)
        → j < n
        → i ≢ j
        → s.pc i ≡ at (complete p b)
        → s.pc j ≡ at outside
        → s.state.mem.expected ≡ 0
        → (t : System tbb (Barrier D) Loc) × Reach tbb (barrier completion) n s t
          × (t.pc i ≡ at (complete p b))
          × (t.pc j ≡ at (complete s.state.mem.phase false))
    twice_completed p b lt ne at_i at_j none' =
        let r₁ : Reach tbb (barrier completion) n s s₁ =
          next here (call j outside (arrive 0 false) lt at_j (calls_arrive 0)) in
        let r₂ : Reach tbb (barrier completion) n s s₂ =
          subst (Reach tbb (barrier completion) n s) loads (
            next r₁ (
              run false j lt
                (Permitted-at (s₁.pc j) (arrive 0 false) s.state.mem (ground arith) tt))) in
        let r₃ : Reach tbb (barrier completion) n s s₃ =
          subst (Reach tbb (barrier completion) n s) (subtracts none') (
            next r₂ (
              run false j lt (
                Permitted-at (s₂.pc j) (subtract 0 s.state.mem.phase false) s.state.mem
                  (ground arith) (omega arith)))) in
        (s₃, r₃, ground arith, ground arith)
