-- ===== src/Examples/WaitFor.antt =====
-- Two streams: the registration of the second callback fails with 4, the first callback is given 0.
use coopsync_tbb.Base.{
  ℕ, zero, suc, ◌<◌, ◌≤◌, ◌≡◌, ◌⊎◌, refl, some, List, [], ◌∷◌, ◌==◌, arith, if◌then◌else◌, update,
}
use coopsync_tbb.WaitFor.{Callbacks, outcome}
use coopsync_tbb.WaitFor.Streams
use coopsync_tbb.WaitFor.Streams.{goes_on, delivers, notifies, returns, over, listed}
use coopsync_tbb.WaitFor.Streams.Resumption.{returned_outcomes, resumed_once}
use coopsync_tbb.WaitFor.Streams.Termination.{measure, events_decrease}
use coopsync_tbb.WaitFor.Streams.Rest.{rested_returned}
use coopsync_tbb.WaitFor.Streams.Outlived.{last_callback, loop_outlives_task}

abbrev two : Callbacks ℕ
two = record {
  success = 0;
  is_success = λ e. e == 0;
  registration = λ i. if i == 1 then 4 else 0;
  reported = λ i. 0;
}

-- The first callback comes while the second item is being notified.
abbrev all' : List Streams.Event
all' =
    goes_on
    ∷ goes_on
    ∷ delivers 0
    ∷ notifies 1
    ∷ notifies 0
    ∷ notifies 0
    ∷ notifies 1
    ∷ notifies 1
    ∷ goes_on
    ∷ returns
    ∷ goes_on
    ∷ []

abbrev some_of : List Streams.Event
some_of = goes_on ∷ goes_on ∷ delivers 0 ∷ notifies 1 ∷ notifies 0 ∷ []

returned_outcomes_example : (0 ∷ 4 ∷ []) ≡ listed 2 (outcome two)
unfolding Streams.step Streams.start Streams.go_on Streams.register Streams.deliver Streams.notify
returned_outcomes_example = returned_outcomes two 2 all' (0 ∷ 4 ∷ []) refl

resumed_once_example :
    ((Streams.run two 2 all' (Streams.start two 2)).resumes ≤ 1)
    × (0 < (Streams.run two 2 all' (Streams.start two 2)).resumes
        → (i : ℕ) → i < 2
        → (Streams.run two 2 all' (Streams.start two 2)).item i ≡ over)
resumed_once_example = resumed_once two 2 all' (omega arith)

abbrev middle : Streams.Wait ℕ
middle = Streams.run two 2 some_of (Streams.start two 2)

events_decrease_example :
    (Streams.step two 2 (notifies 0) middle ≡ middle)
    ⊎ (measure 2 (Streams.step two 2 (notifies 0) middle) < measure 2 middle)
events_decrease_example = events_decrease two 2 some_of (omega arith) (notifies 0)

abbrev ended : Streams.Wait ℕ
ended = Streams.run two 2 all' (Streams.start two 2)

untouched : (i : ℕ) → ended.item (suc (suc i)) ≡ Streams.unregistered
unfolding Streams.step Streams.start Streams.go_on Streams.register Streams.deliver Streams.notify
untouched i = ground arith

at_rest : (e : Streams.Event) → Streams.step two 2 e ended ≡ ended
unfolding Streams.step Streams.start Streams.go_on Streams.register Streams.deliver Streams.notify
at_rest goes_on = refl
at_rest (delivers zero) = refl
at_rest (delivers (suc zero)) = refl
at_rest (delivers (suc (suc i))) = rw (untouched i) refl
at_rest (notifies zero) = refl
at_rest (notifies (suc zero)) = refl
at_rest (notifies (suc (suc i))) = rw (untouched i) refl
at_rest returns = refl

rested_returned_example : ended.returned ≡ some (listed 2 (outcome two))
rested_returned_example = rested_returned two 2 all' (omega arith) at_rest

-- One stream, whose callback is accepted and given 5.
abbrev alone : Callbacks ℕ
alone = record { success = 0; is_success = λ e. e == 0; registration = λ i. 0; reported = λ i. 5 }

loop_outlives_task_example :
    ((Streams.run alone 1 (last_callback alone 1 0) (Streams.start alone 1)).loop ≡ Streams.check 1)
    × ((Streams.run alone 1 (last_callback alone 1 0) (Streams.start alone 1)).returned
        ≡ some (listed 1 (update (Streams.start alone 1).errs 0 5)))
unfolding Streams.start
loop_outlives_task_example =
    loop_outlives_task alone 1 (Streams.start alone 1) 0 refl refl refl refl refl
