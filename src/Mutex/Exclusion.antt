-- ===== src/Mutex/Exclusion.antt =====
-- Who owns a `mutex`: src/mutex.cpp.
use coopsync_tbb.Base.{
  ℕ, ◌+◌, ◌<◌, ◌≡◌, refl, Bool, true, false, arith, if◌then◌else◌, total, total-zero, le-total,
  add-le-total, ℕ_discrete, of_total_pos,
}
use coopsync_tbb.Tbb.{Tbb}
use coopsync_tbb.Machine.{place, System, initial, Reach}
use coopsync_tbb.Machine.Conserved.{Conserves, Keeps, KeepsStock, Anywhere, carried, Reach-held_in}
use coopsync_tbb.Machine.Waits.{ActionWaits}
use coopsync_tbb.Mutex.{
  Mutex, Loc, outside, try, lock, wait, owner, unlock, wake, action, Call, calls_try_lock,
  calls_lock, calls_unlock, mutex, unlocked,
}

abbrev stock : Mutex → ℕ
stock m = if m.locked then 0 else 1

abbrev tokens : Loc → ℕ
tokens owner = 1
tokens unlock = 1
tokens _ = 0

acts :
    (luck : Bool) (l : Loc) (m : Mutex)
    → mutex.Allowed l m
    → Keeps stock tokens l m (action luck l m)
unfolding action
acts luck outside m a = refl
acts luck try m a = ground arith
acts luck lock m a = ground arith
acts luck wait m a = (refl, refl)
acts luck owner m a = refl
acts luck unlock m a = ground arith
acts luck wake m a = (refl, refl)

waits :
    (luck : Bool) (l : Loc) (m : Mutex)
    → ActionWaits (KeepsStock stock tokens) (Anywhere stock tokens) (action luck l m)
unfolding action
waits luck wait m = (λ m'. refl, tt)
waits luck outside m = tt
waits luck try m = tt
waits luck lock m = tt
waits luck owner m = tt
waits luck unlock m = tt
waits luck wake m = tt

calls : (l l' : Loc) → Call l l' → tokens l' ≡ tokens l
calls l l' calls_try_lock = refl
calls l l' calls_lock = refl
calls l l' calls_unlock = refl

mutex-Conserves : Conserves stock tokens mutex
mutex-Conserves = record { acts = acts; waits = waits; calls = calls }

-- A task owns the mutex from the success of `lock` or `try_lock` to the store of `unlock`.
abbrev pub owns : Loc → Bool
owns owner = true
owns unlock = true
owns _ = false

owns_pos : (l : Loc) → 0 < tokens l → owns l ≡ true
owns_pos owner h = refl
owns_pos unlock h = refl
owns_pos outside h = absurd (omega arith)
owns_pos try h = absurd (omega arith)
owns_pos lock h = absurd (omega arith)
owns_pos wait h = absurd (omega arith)
owns_pos wake h = absurd (omega arith)

module _ (tbb : Tbb) {n : ℕ} {w : tbb.World} {s : System tbb Mutex Loc}
    (r : Reach tbb mutex n (initial tbb mutex unlocked (λ _. outside) w) s) where
  -- The stock and the owners add up to one lock.
  one_lock : stock s.state.mem + total n (λ j. carried stock tokens (s.pc j)) ≡ 1
  one_lock =
      let none = total-zero n (λ j. 0) (λ j lt. refl) in
      let all = Reach-held_in stock tokens tbb mutex mutex-Conserves (λ j. tt) r in omega arith

  -- In a reachable state, two tasks below `n` that own the mutex are one task.
  pub mutual_exclusion :
      (i j : ℕ)
      → i < n
      → j < n
      → owns (place (s.pc i)) ≡ true
      → owns (place (s.pc j)) ≡ true
      → i ≡ j
  mutual_exclusion i j lti ltj hi hj = elim (ℕ_discrete i j) [
    | yes e ↦ e
    | no ne ↦
        let f : ℕ → ℕ = λ k. carried stock tokens (s.pc k) in
        let two = add-le-total n f i j lti ltj ne in
        let fi : f i ≡ 1 = ground arith in
        let fj : f j ≡ 1 = ground arith in absurd (omega (arith, one_lock))
  ]

  -- While a task below `n` owns the mutex, `m_locked` is true.
  pub owner_locked : (i : ℕ) → i < n → owns (place (s.pc i)) ≡ true → s.state.mem.locked ≡ true
  owner_locked i lt h =
      let f : ℕ → ℕ = λ k. carried stock tokens (s.pc k) in
      let fi : f i ≡ 1 = ground arith in let one = le-total n f i lt in ground (arith, one_lock)

  -- While `m_locked` is true, some task below `n` owns the mutex.
  pub locked_owner : s.state.mem.locked ≡ true → (i : ℕ) × (i < n) × (owns (place (s.pc i)) ≡ true)
  locked_owner h =
      let f : ℕ → ℕ = λ k. carried stock tokens (s.pc k) in
      let (i, lt, pos) = of_total_pos n f (ground (arith, one_lock)) in
      (i, lt, owns_pos (place (s.pc i)) pos)
