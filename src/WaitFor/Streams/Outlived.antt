-- ===== src/WaitFor/Streams/Outlived.antt =====
-- The functor of `wait_for_range` in include/coopsync_tbb/cuda/wait_for.hpp and hip/wait_for.hpp tests
-- the end of its loop in variables of the task that it has suspended.
use coopsync_tbb.Base.{ℕ, suc, ◌≡◌, refl, true, none, some, List, [], ◌∷◌, ltb, leb, update, arith}
use coopsync_tbb.WaitFor.{Callbacks}
use coopsync_tbb.WaitFor.Streams.{
  check, queued, called, written, last, over, Wait, Event, goes_on, delivers, notifies, returns,
  listed, register, go_on, deliver, notify, step, run,
}

module _ {Err : Type 0} (cb : Callbacks Err) (n : ℕ) where
  -- The last callback is registered, called at once, and the resumed task returns.
  abbrev pub last_callback : ℕ → List Event
  last_callback i = goes_on ∷ delivers i ∷ notifies i ∷ notifies i ∷ notifies i ∷ returns ∷ []

  update_same : {A : Type 0} (f : ℕ → A) (i : ℕ) (x : A) → update f i x i ≡ x
  update_same f i x = ground arith

  module _ (s : Wait Err) (i : ℕ) where
    abbrev s₁ : Wait Err
    s₁ = record s { item = update s.item i queued; loop = check n }

    registers :
        s.loop ≡ check i
        → suc i ≡ n
        → cb.is_success (cb.registration i) ≡ true
        → step cb n goes_on s ≡ s₁
    unfolding step go_on register
    registers at' final ok =
        let below : ltb i n ≡ true = ground arith in rw (at', below, ok, final) refl

    abbrev s₂ : Wait Err
    s₂ = record s₁ { item = update s₁.item i (called (cb.reported i)) }

    is_called : step cb n (delivers i) s₁ ≡ s₂
    unfolding step deliver
    is_called = rw (update_same s.item i queued) refl

    abbrev s₃ : Wait Err
    s₃ = record s₂ { errs = update s.errs i (cb.reported i); item = update s₂.item i written }

    stores : step cb n (notifies i) s₂ ≡ s₃
    unfolding step notify
    stores = rw (update_same s₁.item i (called (cb.reported i))) refl

    abbrev s₄ : Wait Err
    s₄ = record s₃ { pending = 0; item = update s₃.item i last }

    counts_down : s.pending ≡ 1 → step cb n (notifies i) s₃ ≡ s₄
    unfolding step notify
    counts_down one = rw (update_same s₂.item i written, one) refl

    abbrev s₅ : Wait Err
    s₅ = record s₄ { resumes = suc s.resumes; item = update s₄.item i over }

    resumes_task : step cb n (notifies i) s₄ ≡ s₅
    unfolding step notify
    resumes_task = rw (update_same s₃.item i last) refl

    abbrev s₆ : Wait Err
    s₆ = record s₅ { returned = some (listed n s₅.errs) }

    task_returns : s.returned ≡ none → step cb n returns s₅ ≡ s₆
    unfolding step
    task_returns h = let once : leb 1 (suc s.resumes) ≡ true = ground arith in simp (h, once) refl

    -- From a state where the last item is about to be registered successfully and no other one is
    -- outstanding, six steps lead to a state where the task has returned with its error codes, while
    -- the loop is still about to test its end.
    pub loop_outlives_task :
        s.loop ≡ check i
        → suc i ≡ n
        → cb.is_success (cb.registration i) ≡ true
        → s.pending ≡ 1
        → s.returned ≡ none
        → ((run cb n (last_callback i) s).loop ≡ check n)
          × ((run cb n (last_callback i) s).returned
              ≡ some (listed n (update s.errs i (cb.reported i))))
    loop_outlives_task at' final ok one h =
        rw
          (registers at' final ok, is_called, stores, counts_down one, resumes_task, task_returns h)
          (refl, refl)
