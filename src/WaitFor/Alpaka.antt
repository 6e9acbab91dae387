-- ===== src/WaitFor/Alpaka.antt =====
-- include/coopsync_tbb/alpaka/wait_for.hpp: a host task in an alpaka queue resumes the task. That
-- `enqueue` throws, and what the scheduler does then, is left out.
use coopsync_tbb.Base.{◌≡◌, true, some, List}
use coopsync_tbb.WaitFor.{Callbacks}
use coopsync_tbb.WaitFor.Single.{Wait, Event, step, run, start}
use coopsync_tbb.WaitFor.Single.Resumption.{single_rested}

-- A host task has no status.
abbrev pub enqueued : Callbacks (Unit {0})
enqueued = record {
  success = tt;
  is_success = λ _. true;
  registration = λ _. tt;
  reported = λ _. tt;
}

-- The state after some events.
abbrev pub wait_for : List Event → Wait (Unit {0})
wait_for es = run enqueued es (start enqueued)

-- Where no event has an effect any more, the task has returned.
pub alpaka_returns :
    (es : List Event)
    → ((e : Event) → step enqueued e (wait_for es) ≡ wait_for es)
    → (wait_for es).returned ≡ some tt
alpaka_returns es rest = single_rested enqueued es rest
