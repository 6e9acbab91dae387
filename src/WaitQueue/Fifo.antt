-- ===== src/WaitQueue/Fifo.antt =====
-- The wait queue of include/coopsync_tbb/detail/wait_queue.hpp and src/wait_queue.cpp against a queue
-- of tasks: sequences of its operations, each under the lock.
pub mod Steps
pub mod Simulation
use coopsync_tbb.Base.{
  ℕ, suc, ◌+◌, ◌≡◌, Bool, true, false, List, [], ◌∷◌, ◌++◌, map, if◌then◌else◌, update, count,
  length, take, drop,
}
use coopsync_tbb.Tbb.{Tbb}
use coopsync_tbb.IntrusiveList.{Ptr, null}
use coopsync_tbb.WaitQueue.{WaitQueue, resume_one, resume_all, resume_n, suspend_if}
use coopsync_tbb.WaitQueue.Resumption.{resume_each}
use coopsync_tbb.WaitQueue.Refinement.{Holds}

pub data Op : Type 0 where
  -- `wait_if` of a task, past its fast path, whose predicate comes out as the Boolean
  waits : ℕ → Bool → Op
  resumes_one : Op
  resumes : ℕ → Op
  resumes_all : Op

-- The node of task `i`, which `wait_if` constructs.
abbrev pub node_of : ℕ → Ptr
node_of i = suc i

-- `true` as 1.
abbrev pub as_number : Bool → ℕ
as_number b = if b then 1 else 0

module _ (tbb : Tbb) where
  -- What a wait queue promises: the tasks in the order in which they have come.
  pub record Fifo : Type 0 where
    pub tasks : List ℕ
    pub world : tbb.World

  -- The number that the operation returns, if it returns one, and the queue.
  unfoldable pub specified : Op → Fifo → ℕ × Fifo
  specified (waits i true) f =
      (0, record { tasks = f.tasks ++ i ∷ []; world = tbb.suspend f.world i })
  specified (waits i false) f = (0, record f { world = tbb.resume (tbb.suspend f.world i) i })
  specified resumes_one f = (
    length (take 1 f.tasks),
    record { tasks = drop 1 f.tasks; world = resume_each tbb f.world (take 1 f.tasks) },
  )
  specified (resumes n) f = (
    length (take n f.tasks),
    record { tasks = drop n f.tasks; world = resume_each tbb f.world (take n f.tasks) },
  )
  specified resumes_all f = (0, record { tasks = []; world = resume_each tbb f.world f.tasks })

  abbrev pub construct : WaitQueue tbb → Ptr → WaitQueue tbb
  construct q node = record q { next = update q.next node null }

  unfoldable pub implemented : ℕ → Op → WaitQueue tbb → ℕ × WaitQueue tbb
  implemented fuel (waits i b) q = (0, suspend_if tbb (construct q (node_of i)) i (node_of i) b)
  implemented fuel resumes_one q = (as_number (resume_one tbb q).0, (resume_one tbb q).1)
  implemented fuel (resumes n) q = resume_n tbb fuel q n
  implemented fuel resumes_all q = (0, resume_all tbb fuel q)

  -- A task that waits does not come again.
  abbrev pub Enabled : Op → Fifo → Type 0
  Enabled (waits i b) f = count i f.tasks ≡ 0
  Enabled _ f = Unit {0}

  pub record Refines (q : WaitQueue tbb) (f : Fifo) : Type 0 where
    pub nodes : Holds tbb q (map node_of f.tasks)
    pub names : map q.value (map node_of f.tasks) ≡ f.tasks
    pub same_world : q.world ≡ f.world

  -- The numbers that a sequence of operations returns, and the queue.
  abbrev pub run_specified : List Op → Fifo → List ℕ × Fifo
  run_specified [] f = ([], f)
  run_specified (o ∷ os) f =
      let (number, f') = specified o f in
      let (numbers, end') = run_specified os f' in (number ∷ numbers, end')

  abbrev pub run_implemented : ℕ → List Op → WaitQueue tbb → List ℕ × WaitQueue tbb
  run_implemented fuel [] q = ([], q)
  run_implemented fuel (o ∷ os) q =
      let (number, q') = implemented fuel o q in
      let (numbers, end') = run_implemented fuel os q' in (number ∷ numbers, end')

  abbrev pub AllEnabled : List Op → Fifo → Type 0
  AllEnabled [] f = Unit {0}
  AllEnabled (o ∷ os) f = Enabled o f × AllEnabled os (specified o f).1
