-- ===== src/WaitFor/Single.antt =====
-- A task that waits for one callback: `single_stream_context` and `wait_for` of
-- include/coopsync_tbb/cuda/wait_for.hpp and hip/wait_for.hpp, and `context` and `wait_for` of
-- onnx/wait_for.hpp. The functor, the callback and the task take turns in any order.
pub mod Resumption
use coopsync_tbb.Base.{ℕ, suc, Option, none, some, List, [], ◌∷◌, if◌then◌else◌, leb}
use coopsync_tbb.WaitFor.{Callbacks}

pub data Stage (Err : Type 0) : Type 0 where
  unregistered : Stage Err
  queued : Stage Err  -- the runtime has the callback
  called : Err → Stage Err  -- about to store the status
  written : Stage Err  -- about to resume the task
  over : Stage Err

pub record Wait (Err : Type 0) : Type 0 where
  pub stage : Stage Err
  pub err : Err
  pub resumes : ℕ
  pub returned : Option Err

pub data Event : Type 0 where
  registers : Event  -- the functor that `suspend` calls
  delivers : Event  -- the runtime calls the callback
  notifies : Event  -- a step of the callback, or of the functor in its place
  returns : Event  -- the task, once it is resumed

module _ {Err : Type 0} (cb : Callbacks Err) where
  abbrev pub start : Wait Err
  start = record { stage = unregistered; err = cb.success; resumes = 0; returned = none }

  -- A registration that fails is notified of by the functor itself.
  unfoldable pub register : Stage Err → Wait Err → Wait Err
  register unregistered s =
      if cb.is_success (cb.registration 0)
      then record s { stage = queued }
      else record s { stage = called (cb.registration 0) }
  register _ s = s

  unfoldable pub deliver : Stage Err → Wait Err → Wait Err
  deliver queued s = record s { stage = called (cb.reported 0) }
  deliver _ s = s

  -- `single_stream_context::notify`
  unfoldable pub notify : Stage Err → Wait Err → Wait Err
  notify (called e) s = record s { err = e; stage = written }
  notify written s = record s { resumes = suc s.resumes; stage = over }
  notify _ s = s

  abbrev pub finish : Option Err → Wait Err → Wait Err
  finish none s = if leb 1 s.resumes then record s { returned = some s.err } else s
  finish (some e) s = s

  unfoldable pub step : Event → Wait Err → Wait Err
  unfolding register deliver notify
  step registers s = register s.stage s
  step delivers s = deliver s.stage s
  step notifies s = notify s.stage s
  step returns s = finish s.returned s

  -- Any order of events.
  abbrev pub run : List Event → Wait Err → Wait Err
  run [] s = s
  run (e ∷ es) s = run es (step e s)
