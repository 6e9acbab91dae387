-- ===== src/Tbb.antt =====
-- What the library relies on of oneTBB: `tbb::task::suspend` and `tbb::task::resume`.
-- A task is named by a number, and so is the suspend point that names it.
use coopsync_tbb.Base.{ℕ, ◌≡◌, refl, Bool, true, false, ◌==◌, if◌then◌else◌}

pub record Tbb : Type 1 where
  -- The state of the scheduler.
  pub World : Type 0
  pub is_suspended : World → ℕ → Bool
  pub suspend : World → ℕ → World
  pub resume : World → ℕ → World
  pub is_suspended-suspend :
      (w : World) (i j : ℕ)
      → is_suspended (suspend w i) j ≡ (if i == j then true else is_suspended w j)
  pub is_suspended-resume :
      (w : World) (i j : ℕ)
      → is_suspended (resume w i) j ≡ (if i == j then false else is_suspended w j)

-- The assumptions hold of a scheduler that keeps one flag for each task.
abbrev pub flags : Tbb
flags = record {
  World = ℕ → Bool;
  is_suspended = λ w j. w j;
  suspend = λ w i j. if i == j then true else w j;
  resume = λ w i j. if i == j then false else w j;
  is_suspended-suspend = λ w i j. refl;
  is_suspended-resume = λ w i j. refl;
}
