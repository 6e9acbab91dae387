-- ===== src/Semaphore.antt =====
-- include/coopsync_tbb/semaphore.hpp and src/semaphore.cpp.
pub mod Storage
pub mod Counting
pub mod Binary
