-- ===== src/Semaphore/Counting/Permits.antt =====
-- The permits of `counting_semaphore` in include/coopsync_tbb/semaphore.hpp.
use coopsync_tbb.Base.{ℕ, ◌+◌, ◌%◌, ◌*◌, ◌<◌, ◌≤◌, ◌≡◌, refl, Bool, arith, total, le-total, sym}
use native.Mathlib.Nat.{mod-eq_of_lt}
use coopsync_tbb.Tbb.{Tbb}
use coopsync_tbb.Machine.{at, place, System, initial, Reach}
use coopsync_tbb.Machine.Conserved.{Conserves, Keeps, KeepsStock, Anywhere, Reach-held_in}
use coopsync_tbb.Machine.Waits.{ActionWaits}
use coopsync_tbb.Semaphore.Counting.{
  Semaphore, Loc, outside, try, try_loop, acquire, acquire_loop, wait, release, wake, action, Call,
  calls_try_acquire, calls_acquire, calls_release, Allowed, semaphore,
}

abbrev pub stock : Semaphore → ℕ
stock m = m.counter

-- The permits that a task has.
abbrev pub permits : Loc → ℕ
permits (outside k) = k
permits (try k) = k
permits (try_loop k current) = k
permits (acquire k) = k
permits (acquire_loop k current) = k
permits (wait k) = k
permits (release k u) = k + u
permits (wake k u) = k

module _ (limit : ℕ) where
  acts :
      (luck : Bool) (l : Loc) (m : Semaphore)
      → Allowed limit l m
      → Keeps stock permits l m (action limit luck l m)
  unfolding action
  acts luck (outside k) m a = refl
  acts luck (try k) m a = refl
  acts luck (try_loop k c) m a = ground arith
  acts luck (acquire k) m a = refl
  acts luck (acquire_loop k c) m a = ground arith
  acts luck (wait k) m a = (refl, refl)
  acts luck (release k u) m a =
      let small : (m.counter + u) % (2 * (limit + 1)) ≡ m.counter + u =
        mod-eq_of_lt (omega arith) in
      ground arith
  acts luck (wake k u) m a = refl

  waits :
      (luck : Bool) (l : Loc) (m : Semaphore)
      → ActionWaits (KeepsStock stock permits) (Anywhere stock permits) (action limit luck l m)
  unfolding action
  waits luck (outside k) m = tt
  waits luck (try k) m = tt
  waits luck (try_loop k c) m = ground arith
  waits luck (acquire k) m = tt
  waits luck (acquire_loop k c) m = ground arith
  waits luck (wait k) m = (λ m'. refl, tt)
  waits luck (release k u) m = ground arith
  waits luck (wake k u) m = tt

  calls : (l l' : Loc) → Call limit l l' → permits l' ≡ permits l
  calls l l' (calls_try_acquire k) = refl
  calls l l' (calls_acquire k) = refl
  calls l l' (calls_release k kept u e) = sym e

  semaphore-Conserves : Conserves stock permits (semaphore limit)
  semaphore-Conserves = record { acts = acts; waits = waits; calls = calls }

module _ (tbb : Tbb) (limit desired : ℕ) {n : ℕ} {start : ℕ → ℕ} {w : tbb.World}
    {s : System tbb Semaphore Loc}
    (r : Reach tbb
      (semaphore limit)
      n
      (initial tbb (semaphore limit) (record { counter = desired }) (λ j. outside (start j)) w)
      s) where
  -- The counter and the permits of the tasks always add up to what they were at the start.
  pub permits_conserved :
      s.state.mem.counter + total n (λ j. permits (place (s.pc j))) ≡ desired + total n start
  permits_conserved =
      Reach-held_in stock permits tbb (semaphore limit) (semaphore-Conserves limit) (λ j. tt) r

  -- If the permits in the program do not exceed `max()`, the counter does not overflow at a
  -- `release`: its assertion holds, whichever permits the tasks have exchanged before.
  pub release_in_bounds :
      desired + total n start ≤ limit
      → (i k u : ℕ) → i < n
      → s.pc i ≡ at (release k u)
      → s.state.mem.counter + u ≤ limit
  release_in_bounds few i k u lt e =
      let f : ℕ → ℕ = λ j. permits (place (s.pc j)) in
      let fi : f i ≡ k + u = ground arith in omega (arith, permits_conserved, le-total n f i lt)
