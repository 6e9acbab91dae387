-- ===== src/WaitFor.antt =====
-- The `wait_for` functions of include/coopsync_tbb/cuda, hip, onnx and alpaka: a task is suspended
-- until callbacks of another runtime have run.
pub mod Single
pub mod Streams
pub mod Cuda
pub mod Hip
pub mod Onnx
pub mod Alpaka
use coopsync_tbb.Base.{ℕ, Bool, if◌then◌else◌}

-- What the other runtime does, which is not the library's code: for each item that is waited for,
-- the result of the call that registers a callback, and the status that the callback is given.
pub record Callbacks (Err : Type 0) : Type 0 where
  pub success : Err
  pub is_success : Err → Bool
  pub registration : ℕ → Err
  pub reported : ℕ → Err

-- The error code of item `i`: that of its registration if it fails.
abbrev pub outcome : {Err : Type 0} → Callbacks Err → ℕ → Err
outcome cb i = if cb.is_success (cb.registration i) then cb.reported i else cb.registration i
