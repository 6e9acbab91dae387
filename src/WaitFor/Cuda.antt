-- ===== src/WaitFor/Cuda.antt =====
-- include/coopsync_tbb/cuda/wait_for.hpp over the CUDA runtime, which is a parameter.
use coopsync_tbb.Base.{ℕ, ◌≡◌, refl, ap, sym, ◌∙◌, Bool, true, false, some, List, [], ◌∷◌, arith}
use coopsync_tbb.WaitFor.{Callbacks}
use coopsync_tbb.WaitFor.Single
use coopsync_tbb.WaitFor.Single.Resumption.{single_outcome}
use coopsync_tbb.WaitFor.Streams
use coopsync_tbb.WaitFor.Streams.Resumption.{returned_outcomes}

-- `COOPSYNC_TBB_CUDA_HAS_HOST_FUNC_`: which function the runtime has to enqueue a callback.
pub data HostFunc : Type 0 where
  stream_callback host_func host_func_v2 : HostFunc

-- Results of calls of the runtime; the number says which call it is.
pub record Runtime (Stream Err : Type 0) : Type 0 where
  pub success : Err
  pub is_success : Err → Bool
  pub launch_host_func_v2 : ℕ → Stream → ℕ → Err
  pub launch_host_func : ℕ → Stream → Err
  pub stream_add_callback : ℕ → Stream → Err
  -- the status that a callback of `cudaStreamAddCallback` is given
  pub callback_status : ℕ → Err

abbrev is_v2 : HostFunc → Bool
is_v2 host_func_v2 = true
is_v2 _ = false

module _ {Stream Err : Type 0} (cuda : Runtime Stream Err) where
  -- The call of the runtime in `register_callback`.
  unfoldable pub register_callback : HostFunc → ℕ → Stream → ℕ → Err
  register_callback host_func_v2 call stream sync_mode =
      cuda.launch_host_func_v2 call stream sync_mode
  register_callback host_func call stream sync_mode = cuda.launch_host_func call stream
  register_callback stream_callback call stream sync_mode = cuda.stream_add_callback call stream

  -- What `resumption_host_func` and `resumption_callback` notify of.
  unfoldable pub resumption : HostFunc → ℕ → Err
  resumption host_func_v2 call = cuda.success
  resumption host_func call = cuda.success
  resumption stream_callback call = cuda.callback_status call

  abbrev pub callbacks : HostFunc → (ℕ → Stream) → ℕ → Callbacks Err
  callbacks has streams sync_mode = record {
    success = cuda.success;
    is_success = cuda.is_success;
    registration = λ i. register_callback has i (streams i) sync_mode;
    reported = resumption has;
  }

  -- The state after some events.
  abbrev pub wait_for : HostFunc → Stream → ℕ → List Single.Event → Single.Wait Err
  wait_for has stream sync_mode es =
      let cb = callbacks has (λ _. stream) sync_mode in Single.run cb es (Single.start cb)

  abbrev pub wait_for_all :
      HostFunc → ℕ → (n : ℕ) → (ℕ → Stream) → List Streams.Event → Streams.Wait Err
  wait_for_all has sync_mode n streams es =
      let cb = callbacks has streams sync_mode in Streams.run cb n es (Streams.start cb n)

  -- `wait_for_all` without a `sync_mode`
  abbrev pub wait_for_all_default :
      HostFunc → (n : ℕ) → (ℕ → Stream) → List Streams.Event → Streams.Wait Err
  wait_for_all_default has n streams es = wait_for_all has 0 n streams es

  -- `n` is the distance of the iterators, and `streams` what the first one gives after increments.
  abbrev pub wait_for_range :
      HostFunc → (n : ℕ) → (ℕ → Stream) → ℕ → List Streams.Event → Streams.Wait Err
  wait_for_range has n streams sync_mode es =
      let cb = callbacks has streams sync_mode in Streams.run cb n es (Streams.start cb n)

  -- Without `cudaLaunchHostFunc_v2`, the `sync_mode` has no effect.
  pub sync_mode_ignored :
      (has : HostFunc) (n : ℕ) (streams : ℕ → Stream) (sync_mode : ℕ) (es : List Streams.Event)
      → is_v2 has ≡ false
      → wait_for_all has sync_mode n streams es ≡ wait_for_all has 0 n streams es
  unfolding register_callback
  sync_mode_ignored host_func n streams sync_mode es h = refl
  sync_mode_ignored stream_callback n streams sync_mode es h = refl
  sync_mode_ignored host_func_v2 n streams sync_mode es h = absurd (ground arith)

  -- `wait_for` of a stream and `wait_for_all` of that stream alone return the same error code.
  pub all_of_one :
      (has : HostFunc) (stream : Stream) (sync_mode : ℕ) (es : List Single.Event)
      (es' : List Streams.Event) (e : Err) (r : List Err)
      → (wait_for has stream sync_mode es).returned ≡ some e
      → (wait_for_all has sync_mode 1 (λ _. stream) es').returned ≡ some r
      → r ≡ e ∷ []
  all_of_one has stream sync_mode es es' e r h h' =
      let cb = callbacks has (λ _. stream) sync_mode in
      returned_outcomes cb 1 es' r h' ∙ ap (λ x. x ∷ []) (sym ((single_outcome cb es).2 e h))
