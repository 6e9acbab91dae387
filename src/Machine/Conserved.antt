-- ===== src/Machine/Conserved.antt =====
-- A quantity that the atomic variables and the tasks hold together, and that no step changes.
use coopsync_tbb.Base.{
  ℕ, ◌+◌, ◌<◌, ◌≡◌, refl, inl, inr, Bool, true, false, [], ◌∷◌, arith, Bool-cases, update, total,
  total_change,
}
use coopsync_tbb.Tbb.{Tbb}
use coopsync_tbb.Machine.{
  QueueId, Action, access, wait_if, resume_one, resume_n, resume_all, Pc, at, recheck, parked,
  resuming, place, Program, State, System, perform, suspend_if, exec, step, run, call, Permitted,
  Reach, here, next,
}
use coopsync_tbb.Machine.Waits.{ActionWaits, PcWaits, Reach-PcWaits}

module _ {M L : Type 0} (stock : M → ℕ) (tokens : L → ℕ) where
  -- The code that a task goes on with says what it holds.
  abbrev pub carried : Pc M L → ℕ
  carried p = tokens (place p)

  abbrev pub Keeps : L → M → Action M L → Type 0
  Keeps l m (access m' l') = stock m' + tokens l' ≡ stock m + tokens l
  Keeps l m (wait_if q pred l') = (stock (pred m).1 ≡ stock m) × (tokens l' ≡ tokens l)
  Keeps l m (resume_one q f) = (tokens (f true) ≡ tokens l) × (tokens (f false) ≡ tokens l)
  Keeps l m (resume_n q k l') = tokens l' ≡ tokens l
  Keeps l m (resume_all q l') = tokens l' ≡ tokens l

  abbrev pub KeepsStock : QueueId → (M → Bool × M) → L → Type 0
  KeepsStock q pred l = (m : M) → stock (pred m).1 ≡ stock m

  abbrev pub Anywhere : QueueId → L → Type 0
  Anywhere q l = Unit {0}

  pub record Conserves (prog : Program M L) : Type 0 where
    pub acts : (luck : Bool) (l : L) (m : M) → prog.Allowed l m → Keeps l m (prog.action luck l m)
    pub waits :
        (luck : Bool) (l : L) (m : M) → ActionWaits KeepsStock Anywhere (prog.action luck l m)
    pub calls : (l l' : L) → prog.Call l l' → tokens l' ≡ tokens l

  module _ (tbb : Tbb) (prog : Program M L) (keeps : Conserves prog) where
    abbrev pub held_in : ℕ → System tbb M L → ℕ
    held_in n s = stock s.state.mem + total n (λ j. carried (s.pc j))

    perform-Keeps :
        (s : State tbb M L) (l : L) (a : Action M L)
        → Keeps l s.mem a
        → stock (perform tbb s a).0.mem + carried (perform tbb s a).1 ≡ stock s.mem + tokens l
    unfolding perform
    perform-Keeps s l (access m l') h = h
    perform-Keeps s l (wait_if q pred l') h = elim (Bool-cases (pred s.mem).0) [
      | inl e ↦ rw e (omega arith)
      | inr e ↦ rw e (omega arith)
    ]
    perform-Keeps s l (resume_one q f) h = ground arith
    perform-Keeps s l (resume_n q k l') h = omega arith
    perform-Keeps s l (resume_all q l') h = omega arith

    suspend_if-Keeps :
        (i : ℕ) (s : State tbb M L) (q : QueueId) (r : Bool × M) (l : L)
        → stock r.1 ≡ stock s.mem
        → stock (suspend_if tbb i s q r l).0.mem + carried (suspend_if tbb i s q r l).1
          ≡ stock s.mem + tokens l
    unfolding suspend_if
    suspend_if-Keeps i s q (true, m) l h = omega arith
    suspend_if-Keeps i s q (false, m) l h = omega arith

    exec-Keeps :
        (luck : Bool) (i : ℕ) (s : State tbb M L) (p : Pc M L)
        → PcWaits KeepsStock Anywhere p
        → Permitted tbb prog p s.mem
        → stock (exec tbb prog luck i s p).0.mem + carried (exec tbb prog luck i s p).1
          ≡ stock s.mem + carried p
    unfolding exec
    exec-Keeps luck i s (at l) h a =
        perform-Keeps s l (prog.action luck l s.mem) (keeps.acts luck l s.mem a)
    exec-Keeps luck i s (recheck q pred l) h a = suspend_if-Keeps i s q (pred s.mem) l (h.0 s.mem)
    exec-Keeps luck i s (parked q l) h a = elim (Bool-cases (tbb.is_suspended s.world i)) [
      | inl e ↦ rw e refl
      | inr e ↦ rw e refl
    ]
    exec-Keeps luck i s (resuming q [] l) h a = refl
    exec-Keeps luck i s (resuming q (t ∷ ts) l) h a = refl

    update-total :
        (n i : ℕ) (pc : ℕ → Pc M L) (p : Pc M L)
        → i < n
        → total n (λ j. carried (update pc i p j)) + carried (pc i)
          ≡ total n (λ j. carried (pc j)) + carried p
    update-total n i pc p lt =
        let after : ℕ → ℕ = λ j. carried (update pc i p j) in
        let before : ℕ → ℕ = λ j. carried (pc j) in
        let change = total_change n after before i lt (λ j ne. ground arith) in
        let self : after i ≡ carried p = ground arith in omega arith

    -- The quantity is the same in every state that is reached.
    pub Reach-held_in :
        {n : ℕ} {s t : System tbb M L}
        → ((j : ℕ) → PcWaits KeepsStock Anywhere (s.pc j))
        → Reach tbb prog n s t
        → held_in n t ≡ held_in n s
    unfolding step
    Reach-held_in h here = refl
    Reach-held_in {n} h (next {t} r (run luck i lt a)) = omega (
      arith,
      Reach-held_in h r,
      exec-Keeps luck i t.state (t.pc i)
          (Reach-PcWaits KeepsStock Anywhere tbb prog keeps.waits h r i) a,
      update-total n i t.pc (exec tbb prog luck i t.state (t.pc i)).1 lt,
    )
    Reach-held_in {n} h (next {t} r (call i l l' lt e c)) =
        let same = keeps.calls l l' c in
        let old : carried (t.pc i) ≡ tokens l = ground arith in
        omega (arith, Reach-held_in h r, update-total n i t.pc (at l') lt)
