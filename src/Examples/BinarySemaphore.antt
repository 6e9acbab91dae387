-- ===== src/Examples/BinarySemaphore.antt =====
-- Two tasks and a binary semaphore: task 0 acquires it, task 1 goes to sleep, task 0 releases it.
use coopsync_tbb.Base.{ℕ, true, false}
use coopsync_tbb.Tbb.{flags}
use coopsync_tbb.Machine.{System, step, initial}
use coopsync_tbb.Semaphore.Binary.{Semaphore, Loc, outside, acquire, release, semaphore}
use coopsync_tbb.Examples.{awake, called}

abbrev start : System flags Semaphore Loc
start = initial flags semaphore (record { available = true }) (λ _. outside 0) awake

abbrev one : ℕ → System flags Semaphore Loc → System flags Semaphore Loc
one i s = step flags semaphore false i s

abbrev asleep : System flags Semaphore Loc
asleep = one 1 (one 1 (one 1 (called (one 0 (called start 0 (acquire 0))) 1 (acquire 0))))

abbrev releasing : System flags Semaphore Loc
releasing = called asleep 0 (release 0 1)
