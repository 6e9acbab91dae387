-- ===== src/WaitFor/Onnx.antt =====
-- include/coopsync_tbb/onnx/wait_for.hpp over ONNX Runtime, which is a parameter. A status is null for
-- success. That a submission throws in the C++ API, and what the scheduler does then, is left out.
use mathlib.Core.Option
use coopsync_tbb.Base.{suc, ◌≡◌, refl, ap, ◌∙◌, Bool, true, false, Option, none, some, List, arith}
use coopsync_tbb.WaitFor.{Callbacks}
use coopsync_tbb.WaitFor.Single.{Wait, Event, called, written, over, notify, run, start}
use coopsync_tbb.WaitFor.Single.Resumption.{single_outcome}

abbrev pub is_null : {A : Type 0} → Option A → Bool
is_null none = true
is_null (some a) = false

-- What `RunAsync` returns, and the status that it gives to the callback.
pub record Runtime (Status : Type 0) : Type 0 where
  pub submit_status : Option Status
  pub reported_status : Option Status

-- How the function for the C++ API ends.
pub data Ending (Status : Type 0) : Type 0 where
  returned : Ending Status
  throws : Status → Ending Status

-- `Ort::ThrowOnError`
abbrev pub throw_on_error : {Status : Type 0} → Option Status → Ending Status
throw_on_error none = returned
throw_on_error (some st) = throws st

of_map-some :
    {A B : Type 0} (f : A → B) (o : Option A) (b : B)
    → Option.map f o ≡ some b
    → (a : A) × (o ≡ some a) × (b ≡ f a)
of_map-some f none b h = absurd (ground arith)
of_map-some f (some a) b h = (a, refl, ground arith)

module _ {Status : Type 0} where
  -- A null `user_data` is ignored; otherwise the status is stored and the task resumed.
  unfoldable pub resumption_callback :
      Bool → Option Status → Wait (Option Status) → Wait (Option Status)
  resumption_callback false status s = s
  resumption_callback true status s = record s {
    err = status;
    resumes = suc s.resumes;
    stage = over;
  }

  module _ (ort : Runtime Status) where
    abbrev pub callbacks : Callbacks (Option Status)
    callbacks = record {
      success = none;
      is_success = is_null;
      registration = λ _. ort.submit_status;
      reported = λ _. ort.reported_status;
    }

    -- The state after some events, for the C API.
    abbrev pub wait_for : List Event → Wait (Option Status)
    wait_for es = run callbacks es (start callbacks)

    -- The two steps of `notify` are those of `resumption_callback`.
    notify-resumption_callback :
        (status : Option Status) (s : Wait (Option Status))
        → notify callbacks written (notify callbacks (called status) s)
          ≡ resumption_callback true status s
    unfolding notify resumption_callback
    notify-resumption_callback status s = refl

    -- The function for the C API returns the error of the submission, if there is one, and otherwise
    -- the status that the callback is given.
    pub onnx_status :
        (es : List Event) (st : Option Status)
        → (wait_for es).returned ≡ some st
        → ((x : Status) → ort.submit_status ≡ some x → st ≡ some x)
          × (ort.submit_status ≡ none → st ≡ ort.reported_status)
    onnx_status es st h =
        let is = (single_outcome callbacks es).2 st h in
        (λ x e. is ∙ rw e refl, λ e. is ∙ rw e refl)

    -- The end of the function for the C++ API.
    abbrev pub wait_for_or_throw : List Event → Option (Ending Status)
    wait_for_or_throw es = Option.map throw_on_error (wait_for es).returned

    -- If the submission succeeds, the function for the C++ API throws exactly when the callback is
    -- given a status that is not null.
    pub onnx_throws :
        (es : List Event) (x : Ending Status)
        → ort.submit_status ≡ none
        → wait_for_or_throw es ≡ some x
        → x ≡ throw_on_error ort.reported_status
    onnx_throws es x ok h =
        let (st, e, is) = of_map-some throw_on_error (wait_for es).returned x h in
        is ∙ ap throw_on_error ((onnx_status es st e).1 ok)
