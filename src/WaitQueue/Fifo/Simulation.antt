-- ===== src/WaitQueue/Fifo/Simulation.antt =====
-- Sequences of operations of the wait queue of include/coopsync_tbb/detail/wait_queue.hpp and
-- src/wait_queue.cpp.
use coopsync_tbb.Base.{
  ℕ, zero, suc, ◌+◌, ◌<◌, ◌≤◌, ◌≡◌, refl, true, false, List, [], ◌∷◌, arith, length-append, length,
  drop, ap₂,
}
use coopsync_tbb.Tbb.{Tbb}
use coopsync_tbb.WaitQueue.{WaitQueue}
use coopsync_tbb.WaitQueue.Fifo.Steps.{op-Refines}
use coopsync_tbb.WaitQueue.Fifo.{
  Op, waits, resumes_one, resumes, resumes_all, Fifo, specified, implemented, Refines,
  run_specified, run_implemented, AllEnabled,
}

module _ (tbb : Tbb) where
  length-drop-le : (n : ℕ) (xs : List ℕ) → length (drop n xs) ≤ length xs
  length-drop-le zero xs = omega arith
  length-drop-le (suc n) [] = omega arith
  length-drop-le (suc n) (x ∷ xs) = omega (arith, length-drop-le n xs)

  -- An operation adds at most one task.
  tasks_le : (o : Op) (f : Fifo tbb) → length (specified tbb o f).1.tasks ≤ suc (length f.tasks)
  unfolding specified
  tasks_le (waits i true) f = omega (arith, length-append f.tasks (i ∷ []))
  tasks_le (waits i false) f = omega arith
  tasks_le resumes_one f = omega (arith, length-drop-le 1 f.tasks)
  tasks_le (resumes n) f = omega (arith, length-drop-le n f.tasks)
  tasks_le resumes_all f = omega arith

  -- From a wait queue that stands for a queue of tasks, any sequence of operations, in which no task
  -- comes that already waits, returns the same numbers as on the queue of tasks and leaves a wait
  -- queue that stands for the same tasks, if the fuel exceeds the tasks and the operations together.
  pub run-Refines :
      (fuel : ℕ) (os : List Op) (q : WaitQueue tbb) (f : Fifo tbb)
      → AllEnabled tbb os f
      → length f.tasks + length os < fuel
      → Refines tbb q f
      → ((run_implemented tbb fuel os q).0 ≡ (run_specified tbb os f).0)
        × Refines tbb (run_implemented tbb fuel os q).1 (run_specified tbb os f).1
  run-Refines fuel [] q f en enough r = (refl, r)
  run-Refines fuel (o ∷ os) q f (en, ens) enough r =
      let first = op-Refines tbb fuel o q f en (omega arith) r in
      let rest =
        run-Refines fuel os (implemented tbb fuel o q).1 (specified tbb o f).1 ens
          (omega (arith, tasks_le o f)) first.1 in
      (ap₂ (λ x xs. x ∷ xs) first.0 rest.0, rest.1)
