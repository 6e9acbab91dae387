-- ===== src/AtomicCondition/Atomic.antt =====
-- What include/coopsync_tbb/atomic_condition.hpp and its relatives use of the standard library's atomic
-- variables: memory orders, which serve for assertions only, and references.
use coopsync_tbb.Base.{Bool, true, false}

pub data Order : Type 0 where
  relaxed consume acquire release acq_rel seq_cst : Order

-- What `clear` asserts of its argument.
abbrev pub stores : Order → Bool
stores consume = false
stores acquire = false
stores acq_rel = false
stores _ = true

-- What `test` and `wait` assert of theirs.
abbrev pub loads : Order → Bool
loads release = false
loads acq_rel = false
loads _ = true

-- A reference to an atomic variable that is a part of `S`.
pub record Reference (S T : Type 0) : Type 0 where
  pub load : S → T
  pub store : T → S → S
