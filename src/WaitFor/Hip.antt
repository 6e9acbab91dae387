-- ===== src/WaitFor/Hip.antt =====
-- include/coopsync_tbb/hip/wait_for.hpp over the HIP runtime, which is a parameter.
use coopsync_tbb.Base.{ℕ, ◌≡◌, refl, Bool, true, false, List}
use coopsync_tbb.WaitFor.{Callbacks}
use coopsync_tbb.WaitFor.Single
use coopsync_tbb.WaitFor.Streams
use coopsync_tbb.WaitFor.Cuda

-- Results of calls of the runtime; the number says which call it is.
pub record Runtime (Stream Err : Type 0) : Type 0 where
  pub success : Err
  pub is_success : Err → Bool
  pub launch_host_func : ℕ → Stream → Err
  pub stream_add_callback : ℕ → Stream → Err
  -- the status that a callback of `hipStreamAddCallback` is given
  pub callback_status : ℕ → Err

-- The Booleans are `COOPSYNC_TBB_HIP_HAS_HOST_FUNC_`.
module _ {Stream Err : Type 0} (hip : Runtime Stream Err) where
  -- The call of the runtime in `register_callback`.
  unfoldable pub register_callback : Bool → ℕ → Stream → Err
  register_callback true call stream = hip.launch_host_func call stream
  register_callback false call stream = hip.stream_add_callback call stream

  -- What `resumption_host_func` and `resumption_callback` notify of.
  unfoldable pub resumption : Bool → ℕ → Err
  resumption true call = hip.success
  resumption false call = hip.callback_status call

  abbrev pub callbacks : Bool → (ℕ → Stream) → Callbacks Err
  callbacks has streams = record {
    success = hip.success;
    is_success = hip.is_success;
    registration = λ i. register_callback has i (streams i);
    reported = resumption has;
  }

  -- The state after some events.
  abbrev pub wait_for : Bool → Stream → List Single.Event → Single.Wait Err
  wait_for has stream es =
      let cb = callbacks has (λ _. stream) in Single.run cb es (Single.start cb)

  abbrev pub wait_for_all : Bool → (n : ℕ) → (ℕ → Stream) → List Streams.Event → Streams.Wait Err
  wait_for_all has n streams es =
      let cb = callbacks has streams in Streams.run cb n es (Streams.start cb n)

  -- `n` is the distance of the iterators, and `streams` what the first one gives after increments.
  abbrev pub wait_for_range : Bool → (n : ℕ) → (ℕ → Stream) → List Streams.Event → Streams.Wait Err
  wait_for_range has n streams es =
      let cb = callbacks has streams in Streams.run cb n es (Streams.start cb n)

  -- A HIP runtime as a CUDA runtime.
  abbrev pub as_cuda : Cuda.Runtime Stream Err
  as_cuda = record {
    success = hip.success;
    is_success = hip.is_success;
    launch_host_func_v2 = λ call stream flags. hip.launch_host_func call stream;
    launch_host_func = hip.launch_host_func;
    stream_add_callback = hip.stream_add_callback;
    callback_status = hip.callback_status;
  }

  abbrev pub cuda_host_func : Bool → Cuda.HostFunc
  cuda_host_func true = Cuda.host_func
  cuda_host_func false = Cuda.stream_callback

  -- The functions for HIP do what those for CUDA do on the same results of the runtime.
  pub hip_like_cuda :
      (has : Bool) (stream : Stream) (n : ℕ) (streams : ℕ → Stream) (sync_mode : ℕ)
      (es : List Single.Event) (es' : List Streams.Event)
      → (wait_for has stream es ≡ Cuda.wait_for as_cuda (cuda_host_func has) stream sync_mode es)
        × (wait_for_all has n streams es'
            ≡ Cuda.wait_for_all as_cuda (cuda_host_func has) sync_mode n streams es')
        × (wait_for_range has n streams es'
            ≡ Cuda.wait_for_range as_cuda (cuda_host_func has) n streams sync_mode es')
  unfolding register_callback resumption Cuda.register_callback Cuda.resumption
  hip_like_cuda true stream n streams sync_mode es es' = (refl, refl, refl)
  hip_like_cuda false stream n streams sync_mode es es' = (refl, refl, refl)
