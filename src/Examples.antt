-- ===== src/Examples.antt =====
-- The theorems at concrete runs of the primitives, over a scheduler that keeps one flag for each task.
mod Mutex
mod Semaphore
mod BinarySemaphore
mod Latch
mod AtomicCondition
mod AtomicFlag
mod AtomicRef
mod SharedMutex
mod ConditionVariable
mod WaitQueue
mod Future
mod Guards
mod Barrier
mod BarrierCompletion
mod SharedState
mod WaitFor
use coopsync_tbb.Base.{ℕ, Bool, false, update}
use coopsync_tbb.Tbb.{flags}
use coopsync_tbb.Machine.{at, System}

-- Nobody is suspended.
abbrev pub awake : ℕ → Bool
awake _ = false

-- The state after task `i` has called the function at `l`.
abbrev pub called : {M L : Type 0} → System flags M L → ℕ → L → System flags M L
called s i l = record s { pc = update s.pc i (at l) }
