-- ===== src/Barrier/Phase.antt =====
-- The fast path of `wait` in include/coopsync_tbb/barrier.hpp.
use coopsync_tbb.Base.{ℕ, ◌<◌, ◌≡◌, not, arith, ◌==◌}
use coopsync_tbb.Barrier.{next_phase, is_previous}

-- For a phase that an `unsigned char` holds, the fast path recognises a token of the phase that has
-- just ended exactly when that phase is not the last one, 255.
pub previous_phase_wraps : (p : ℕ) → p < 256 → is_previous p (next_phase p) ≡ not (p == 255)
previous_phase_wraps p lt = ground arith
