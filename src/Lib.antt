-- ===== src/Lib.antt =====
-- A verification library for coopsync_tbb: synchronization primitives for oneTBB tasks that suspend
-- the task instead of blocking its thread.
--
-- How the program works. Every primitive keeps a few atomic variables and one or two wait queues
-- (include/coopsync_tbb/detail/wait_queue.hpp). A task that has to wait calls `wait_if`: it tests its
-- predicate, suspends itself through oneTBB, and under the lock of the queue tests once more and puts
-- its suspend point into an intrusive list, or resumes itself at once. A task that changes the
-- variables calls `resume_one`, `resume_n` or `resume_all`, which take suspend points off the list
-- and give them back to oneTBB.
--
-- Where it is modelled:
--   IntrusiveList     include/coopsync_tbb/detail/intrusive_list.hpp; Chain says which sequence of
--                     nodes a list stands for, Laws what each operation does to it, RoundTrip what
--                     comes out of it, Contents the list as a view that forgets the memory
--   WaitQueue         include/coopsync_tbb/detail/wait_queue.hpp, src/wait_queue.cpp over that list;
--                     Resumption and Refinement have what each function does to the nodes, Fifo
--                     compares sequences of calls with a queue of tasks, which is what Machine
--                     keeps, and Lifetime has nodes that are gone as soon as their task is resumed
--   Tbb               what is relied on of oneTBB: suspend marks a task as suspended, resume as not
--   Machine           any number of tasks, each at a location of a primitive's code, that run one
--                     atomic action at a time; `wait_if` and the `resume_*` functions are actions of
--                     several steps, so that every interleaving with other tasks is a run. Its child
--                     modules carry the accounts of who stands in which queue, conserved quantities,
--                     and the arguments that wake-ups suffice: Waking where a waiter takes something
--                     from others, Alarm where all waiters of one of the queues go on, with Alone
--                     for runs of one task, Gate for what a waiter has seen. Deadlock has runs of
--                     several tasks that take what is there, Ownership is a lock as an abstract
--                     machine, and Quiet has what a destructor may rely on
--   Mutex             include/coopsync_tbb/mutex.hpp, src/mutex.cpp; ScopedLock is its guard,
--                     Ownership compares it with the abstract lock
--   Semaphore         include/coopsync_tbb/semaphore.hpp, src/semaphore.cpp: Counting, Binary, and
--                     Storage for the choice of the counter's type
--   Latch             include/coopsync_tbb/latch.hpp, src/latch.cpp
--   SharedMutex       include/coopsync_tbb/shared_mutex.hpp, src/shared_mutex.cpp; ScopedLock is
--                     its guard, Ownership compares it with the abstract lock, Readers is about the
--                     second queue, Destruction about the destructor
--   AtomicCondition   include/coopsync_tbb/atomic_condition.hpp and atomic_ref_condition.hpp: Atomic has
--                     the accesses and their memory orders, Ref a reference with one copy, each with
--                     a queue of its own; Flag is include/coopsync_tbb/atomic_flag.hpp with
--                     src/atomic_flag.cpp
--   ConditionVariable include/coopsync_tbb/condition_variable.hpp, src/condition_variable.cpp
--   Barrier           include/coopsync_tbb/barrier.hpp
--   Future            include/coopsync_tbb/future.hpp: the shared states on a heap, each operation as
--                     one step. Handles has promises and futures, with the move of the value in `get`
--                     of a `future`, Task packaged tasks, Laws what reaches a future, Specialised the
--                     variants for `void` and references, Storage the memory of the value, Objects the
--                     states that a program's promises and futures can get to, also where other steps
--                     come between the accesses of a call, and Classes one interface for each kind of
--                     class, which all of its specialisations fill. Concurrent is one shared state as
--                     a program for Machine, with every access of its atomic status a step of its
--                     own, whose result is read through `shared_future`
--   WaitFor           include/coopsync_tbb/cuda/wait_for.hpp, hip/wait_for.hpp, onnx/wait_for.hpp and
--                     alpaka/wait_for.hpp: Single waits for one callback, Streams for several; Cuda,
--                     Hip, Onnx and Alpaka say which runtime calls register them
--   Base              shared helpers; Examples runs the primitives at concrete values
--
-- A primitive is a `Program`: `action` gives what the code does at each location (the places between
-- two atomic accesses), `Call` the calls that a task outside the primitive's code may make, and
-- `Allowed` what the assertions demand of the arguments of a call. `Reach` are the states that `n`
-- tasks, numbered from 0, can get to.
--
-- What is assumed. Atomic accesses are sequentially consistent. A section under the spin mutex of a
-- queue is one step: it makes at most one access to a variable outside the queue. A weak
-- compare-exchange may fail for no reason, which a Boolean of each step says. The counter of
-- `counting_semaphore` is a bit pattern that wraps around; other counters are natural numbers or
-- integers without bound. The loops of the wait queue run on fuel: one more round than there are
-- waiters is enough, as the theorems on them say. Machine keeps a queue as the list of its tasks.
-- The constructors of a type are parameters: what they return or throw, and what a move leaves.
-- The runtimes of CUDA, HIP, ONNX Runtime and alpaka are parameters: the results of their calls, and
-- callbacks that come at any time after a registration that succeeds, each once, and never after one
-- that fails.
--
-- What is not modelled: the memory orders, but for the assertions on them; the destructors other
-- than that of `shared_mutex`, which only assert that nobody waits; more than one copy of an
-- `atomic_ref_condition`; `get` of a `future` with other steps between its accesses, beyond its wait; allocators of shared states; a submission to ONNX Runtime's C++ interface or
-- to alpaka that throws, since what oneTBB then does with the suspended task is not the library's
-- code; and the preprocessor's feature tests.
pub mod Base
pub mod Tbb
pub mod IntrusiveList
pub mod WaitQueue
pub mod Machine
pub mod Mutex
pub mod Semaphore
pub mod Latch
pub mod SharedMutex
pub mod AtomicCondition
pub mod ConditionVariable
pub mod Barrier
pub mod Future
pub mod Examples
pub mod WaitFor
