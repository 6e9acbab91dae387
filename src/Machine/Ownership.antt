-- ===== src/Machine/Ownership.antt =====
-- What tasks own, as the steps of an abstract lock: a task takes it for itself or shares it, when
-- nobody has what excludes this, and gives it back.
use coopsync_tbb.Base.{
  ℕ, ◌<◌, ◌≡◌, ◌≢◌, ◌⊎◌, fun_ext, subst, Bool-cases, inl, inr, refl, Bool, true, false, [], ◌∷◌,
  arith, ◌==◌, update,
}
use coopsync_tbb.Tbb.{Tbb}
use coopsync_tbb.Machine.{
  Action, access, wait_if, resume_one, resume_n, resume_all, Pc, at, recheck, parked, resuming,
  Program, State, System, perform, exec, step, Step, run, call, Reach, here, next,
}

-- What a task has of the lock.
pub data Mode : Type 0 where
  free shared exclusive : Mode

abbrev pub is_free : Mode → Bool
is_free free = true
is_free shared = false
is_free exclusive = false

-- What two tasks may have at once.
abbrev pub compatible : Mode → Mode → Bool
compatible free b = true
compatible shared free = true
compatible shared shared = true
compatible shared exclusive = false
compatible exclusive b = is_free b

-- A step from one mode to the other is at most one acquisition or one release.
abbrev pub turns : Mode → Mode → Bool
turns free b = true
turns shared free = true
turns shared shared = true
turns shared exclusive = false
turns exclusive free = true
turns exclusive shared = false
turns exclusive exclusive = true

-- The steps of a lock for `n` tasks, in the mode that each of them has.
pub data LockStep (n : ℕ) (o : ℕ → Mode) : (ℕ → Mode) → Type 0 where
  acquires :
      (i : ℕ) (m : Mode)
      → i < n
      → o i ≡ free
      → ((j : ℕ) → j < n → i ≢ j → compatible m (o j) ≡ true)
      → LockStep n o (update o i m)
  releases : (i : ℕ) → i < n → o i ≢ free → LockStep n o (update o i free)

pub data LockReach (n : ℕ) (o : ℕ → Mode) : (ℕ → Mode) → Type 0 where
  rests : LockReach n o o
  moves : {a b : ℕ → Mode} → LockReach n o a → LockStep n a b → LockReach n o b

-- At most one step of the lock.
abbrev pub AtMostOne : ℕ → (ℕ → Mode) → (ℕ → Mode) → Type 0
AtMostOne n o o' = (o ≡ o') ⊎ LockStep n o o'

unmoved : (o : ℕ → Mode) (i : ℕ) (b : Mode) → o i ≡ b → (j : ℕ) → o j ≡ update o i b j
unmoved o i b e j = elim (Bool-cases (i == j)) [
  | inl here' ↦ ground (arith, e)
  | inr other ↦ rw other
]

module _ {n : ℕ} (o : ℕ → Mode) (i : ℕ) (lt : i < n) where
  resting : (b : Mode) → o i ≡ b → AtMostOne n o (update o i b)
  resting b e = inl (fun_ext (unmoved o i b e))

  moved :
      (a b : Mode)
      → o i ≡ a
      → turns a b ≡ true
      → ((j : ℕ) → j < n → i ≢ j → compatible b (o j) ≡ true)
      → AtMostOne n o (update o i b)
  moved free free e t c = resting free e
  moved free shared e t c = inr (acquires i shared lt e c)
  moved free exclusive e t c = inr (acquires i exclusive lt e c)
  moved shared free e t c = inr (releases i lt (λ f. cc))
  moved shared shared e t c = resting shared e
  moved shared exclusive e t c = cc
  moved exclusive free e t c = inr (releases i lt (λ f. cc))
  moved exclusive shared e t c = cc
  moved exclusive exclusive e t c = resting exclusive e

-- A step of the machine that is at most one step of the lock adds at most that one.
add_step : {n : ℕ} {s o o' : ℕ → Mode} → LockReach n s o → AtMostOne n o o' → LockReach n s o'
add_step {n} {s} r (inl same) = subst (LockReach n s) same r
add_step r (inr st) = moves r st

module _ {M L : Type 0} (mode : L → Mode) where
  -- A task owns by its location, and nothing while it is in the code of a wait queue.
  abbrev pub mode_of : Pc M L → Mode
  mode_of (at l) = mode l
  mode_of (recheck q pred l) = free
  mode_of (parked q l) = free
  mode_of (resuming q ts l) = free

  -- An action takes or gives back at most once.
  abbrev pub Turns : L → Action M L → Type 0
  Turns l (access m l') = turns (mode l) (mode l') ≡ true
  Turns l (wait_if q pred l') = (mode l ≡ free) × (turns (mode l) (mode l') ≡ true)
  Turns l (resume_one q f) = (turns (mode l) free ≡ true) × (turns (mode l) (mode (f false)) ≡ true)
  Turns l (resume_n q k l') = turns (mode l) free ≡ true
  Turns l (resume_all q l') = turns (mode l) free ≡ true

  pub record Owned (prog : Program M L) : Type 0 where
    pub acts : (luck : Bool) (l : L) (m : M) → Turns l (prog.action luck l m)
    pub calls : (l l' : L) → prog.Call l l' → turns (mode l) (mode l') ≡ true

  module _ (tbb : Tbb) (prog : Program M L) where
    abbrev pub owners : System tbb M L → ℕ → Mode
    owners s j = mode_of (s.pc j)

    performed :
        (l : L) (s : State tbb M L) (a : Action M L)
        → Turns l a
        → turns (mode l) (mode_of (perform tbb s a).1) ≡ true
    unfolding perform
    performed l s (access m l') t = t
    performed l s (wait_if q pred l') t = elim (Bool-cases (pred s.mem).0) [
      | inl e ↦ rw e (rw t.0 refl)
      | inr e ↦ rw e t.1
    ]
    performed l s (resume_one q f) t = ground (arith, t.0, t.1)
    performed l s (resume_n q k l') t = t
    performed l s (resume_all q l') t = t

    turned :
        (owned : Owned prog) (luck : Bool) (i : ℕ) (s : State tbb M L) (p : Pc M L)
        → turns (mode_of p) (mode_of (exec tbb prog luck i s p).1) ≡ true
    unfolding exec
    turned owned luck i s (at l) =
        performed l s (prog.action luck l s.mem) (owned.acts luck l s.mem)
    turned owned luck i s (recheck q pred l) = refl
    turned owned luck i s (parked q l) = refl
    turned owned luck i s (resuming q [] l) = refl
    turned owned luck i s (resuming q (t ∷ ts) l) = refl

    updated :
        (pc : ℕ → Pc M L) (i : ℕ) (p : Pc M L) (j : ℕ)
        → update (λ k. mode_of (pc k)) i (mode_of p) j ≡ mode_of (update pc i p j)
    updated pc i p j = elim (Bool-cases (i == j)) [
      | inl here' ↦ rw here' refl
      | inr other ↦ rw other refl
    ]

    module _ {n : ℕ} {s : System tbb M L} (owned : Owned prog)
        (excludes : (t : System tbb M L)
          → Reach tbb prog n s t
          → (i j : ℕ) → i < n
          → j < n
          → i ≢ j
          → compatible (owners t i) (owners t j) ≡ true) where
      -- The step of task `i` to `p`, in a state where the tasks' modes are compatible.
      advanced :
          (pc : ℕ → Pc M L) (i : ℕ) (p : Pc M L)
          → i < n
          → turns (mode_of (pc i)) (mode_of p) ≡ true
          → ((j : ℕ)
              → j < n
              → i ≢ j
              → compatible (mode_of (update pc i p i)) (mode_of (update pc i p j)) ≡ true)
          → AtMostOne n (λ j. mode_of (pc j)) (λ j. mode_of (update pc i p j))
      advanced pc i p lt t c =
          subst (AtMostOne n (λ j. mode_of (pc j))) (fun_ext (updated pc i p)) (
            moved (λ j. mode_of (pc j)) i lt (mode_of (pc i)) (mode_of p) refl t
              (λ j ltj ne. ground (arith, c j)))

      -- What the tasks of a program own stays in a step, or changes by a step of the lock.
      pub Step-LockStep :
          {t u : System tbb M L}
          → Reach tbb prog n s t
          → Step tbb prog n t u
          → AtMostOne n (owners t) (owners u)
      unfolding step
      Step-LockStep {t} r (run luck i lt a) =
          advanced t.pc i (exec tbb prog luck i t.state (t.pc i)).1 lt
            (turned owned luck i t.state (t.pc i))
            (λ j ltj ne. excludes _ (next r (run luck i lt a)) i j lt ltj ne)
      Step-LockStep {t} r (call i l l' lt e c) =
          advanced t.pc i (at l') lt (rw e (owned.calls l l' c))
            (λ j ltj ne. excludes _ (next r (call i l l' lt e c)) i j lt ltj ne)

      -- So a run of the program is a run of the lock.
      pub Reach-LockReach :
          {t : System tbb M L} → Reach tbb prog n s t → LockReach n (owners s) (owners t)
      Reach-LockReach here = rests
      Reach-LockReach (next r st) = add_step (Reach-LockReach r) (Step-LockStep r st)
