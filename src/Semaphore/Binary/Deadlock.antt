-- ===== src/Semaphore/Binary/Deadlock.antt =====
-- The absence of deadlocks in `counting_semaphore<1>` of src/semaphore.cpp.
use coopsync_tbb.Base.{ℕ, ◌≡◌, Bool, true, false}
use coopsync_tbb.Tbb.{Tbb}
use coopsync_tbb.Semaphore.Binary.{Semaphore, Loc, acquire, wait}

abbrev in_acquire : Loc → Bool
in_acquire (acquire k) = true
in_acquire (wait k) = true
in_acquire _ = false

abbrev distance : Loc → Semaphore → ℕ
distance (wait k) m = 1
distance _ m = 0

abbrev Available : Semaphore → Type 0
Available m = m.available ≡ true
