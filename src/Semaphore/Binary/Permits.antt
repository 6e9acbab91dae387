-- ===== src/Semaphore/Binary/Permits.antt =====
-- The permit of `counting_semaphore<1>` in src/semaphore.cpp.
use coopsync_tbb.Base.{
  ℕ, ◌+◌, ◌<◌, ◌≤◌, ◌≡◌, refl, sym, Bool, arith, if◌then◌else◌, total, le-total, ℕ_discrete, inl,
  inr,
}
use coopsync_tbb.Tbb.{Tbb}
use coopsync_tbb.Machine.{at, place, System, initial, Reach}
use coopsync_tbb.Machine.Conserved.{Conserves, Keeps, KeepsStock, Anywhere, Reach-held_in}
use coopsync_tbb.Machine.Waits.{ActionWaits}
use coopsync_tbb.Semaphore.Binary.{
  Semaphore, Loc, outside, try, acquire, wait, release, wake, action, Call, calls_try_acquire,
  calls_acquire, calls_release, Allowed, semaphore,
}

abbrev pub stock : Semaphore → ℕ
stock m = if m.available then 1 else 0

-- The permits that a task has.
abbrev pub permits : Loc → ℕ
permits (outside k) = k
permits (try k) = k
permits (acquire k) = k
permits (wait k) = k
permits (release k u) = k + u
permits (wake k) = k

acts :
    (luck : Bool) (l : Loc) (m : Semaphore)
    → Allowed l m
    → Keeps stock permits l m (action luck l m)
unfolding action
acts luck (outside k) m a = refl
acts luck (try k) m a = ground arith
acts luck (acquire k) m a = ground arith
acts luck (wait k) m a = (refl, refl)
acts luck (release k u) m a = ground arith
acts luck (wake k) m a = (refl, refl)

waits :
    (luck : Bool) (l : Loc) (m : Semaphore)
    → ActionWaits (KeepsStock stock permits) (Anywhere stock permits) (action luck l m)
unfolding action
waits luck (outside k) m = tt
waits luck (try k) m = tt
waits luck (acquire k) m = tt
waits luck (wait k) m = (λ m'. refl, tt)
waits luck (release k u) m = ground arith
waits luck (wake k) m = tt

calls : (l l' : Loc) → Call l l' → permits l' ≡ permits l
calls l l' (calls_try_acquire k) = refl
calls l l' (calls_acquire k) = refl
calls l l' (calls_release k kept u e) = sym e

semaphore-Conserves : Conserves stock permits semaphore
semaphore-Conserves = record { acts = acts; waits = waits; calls = calls }

module _ (tbb : Tbb) (desired : Bool) {n : ℕ} {start : ℕ → ℕ} {w : tbb.World}
    {s : System tbb Semaphore Loc}
    (r : Reach tbb semaphore n
      (initial tbb semaphore (record { available = desired }) (λ j. outside (start j)) w)
      s) where
  -- The flag and the permits of the tasks always add up to what they were at the start.
  pub binary_permits_conserved :
      stock s.state.mem + total n (λ j. permits (place (s.pc j)))
      ≡ (if desired then 1 else 0) + total n start
  binary_permits_conserved =
      Reach-held_in stock permits tbb semaphore semaphore-Conserves (λ j. tt) r

  -- If there is one permit in the program, what `release` requires holds whenever a task calls it.
  pub binary_release-Allowed :
      (if desired then 1 else 0) + total n start ≤ 1
      → (i k u : ℕ) → i < n
      → s.pc i ≡ at (release k u)
      → Allowed (release k u) s.state.mem
  binary_release-Allowed few i k u lt e =
      let f : ℕ → ℕ = λ j. permits (place (s.pc j)) in
      let fi : f i ≡ k + u = ground arith in
      let fl = le-total n f i lt in
      let c = binary_permits_conserved in
      (omega arith, elim (ℕ_discrete u 0) [ yes z ↦ inl z | no nz ↦ inr (ground arith) ])
