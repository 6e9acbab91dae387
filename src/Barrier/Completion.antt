-- ===== src/Barrier/Completion.antt =====
-- The completion step of include/coopsync_tbb/barrier.hpp: from the last arrival of a phase to the
pub mod Invariant
mod Steps
-- store of the next expected count.
use coopsync_tbb.Base.{
  ℕ, ◌<◌, ◌≡◌, refl, false, arith, add-le-total, le-total, total-zero, ℕ_discrete,
}
use coopsync_tbb.Tbb.{Tbb}
use coopsync_tbb.Machine.{place, System, initial, Reach}
use coopsync_tbb.Machine.Accounts.{initial-Accounts}
use coopsync_tbb.Machine.Induction.{Reach-ind}
use coopsync_tbb.Barrier.{Barrier, Loc, outside, new_barrier}
use Invariant.{completing, Untouched, Anywhere, waits, positive_barrier, Inv}
use Steps.{runs, calls}

module _ {D : Type 0} (completion : D → D) where
  -- In a reachable state of a barrier whose callers never arrive by zero, two tasks that complete a
  -- phase are one task, and meanwhile no arrival is expected.
  pub one_completion :
      (tbb : Tbb) (expected : ℕ) (d : D) {n : ℕ} {w : tbb.World} {s : System tbb (Barrier D) Loc}
      → ((t : ℕ) → tbb.is_suspended w t ≡ false)
      → Reach tbb
          (positive_barrier completion)
          n
          (initial tbb (positive_barrier completion) (new_barrier expected d) (λ _. outside) w)
          s
      → (i j : ℕ) → i < n
      → j < n
      → completing (place (s.pc i)) ≡ 1
      → completing (place (s.pc j)) ≡ 1
      → (i ≡ j) × (s.state.mem.expected ≡ 0)
  one_completion tbb expected d {n} {w} {s} quiet r i j lti ltj hi hj =
      let m = new_barrier expected d in
      let none' = total-zero n (λ _. 0) (λ j lt. refl) in
      let v =
        Reach-ind tbb (positive_barrier completion) n Untouched Anywhere (waits completion)
          (λ s pc. Inv n s.mem pc) (runs completion tbb n) (calls completion tbb n)
          (initial-Accounts tbb (positive_barrier completion) n m (λ _. outside) w quiet) (λ j. tt)
          (record { few = omega arith; none_left = λ pos. absurd (omega arith) }) r in
      let f : ℕ → ℕ = λ k. completing (place (s.pc k)) in
      (
        elim (ℕ_discrete i j) [
          | yes e ↦ e
          | no ne ↦ absurd (omega (arith, add-le-total n f i j lti ltj ne, v.few))
        ],
        v.none_left (omega (arith, le-total n f i lti)),
      )
