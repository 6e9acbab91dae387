-- ===== src/Future/Objects/Sound.antt =====
-- The shared states of include/coopsync_tbb/future.hpp along the steps of a program.
use coopsync_tbb.Base.{ℕ, ◌⊎◌, Bool, none, arith}
use coopsync_tbb.Future.{outcome}
use coopsync_tbb.Future.Objects.{
  Objects, start, Step, makes, gets_future, sets_value, sets_exception, exchanges, publishes, wakes,
  destroys, assigns, swaps, waits, gets, shares, Reach, here, next,
}
use coopsync_tbb.Future.Objects.Changes.{
  Sound, set_value-Change, set_exception-Change, destroy-Change, wait-Change, get-Change,
  get_future-Change, exchanged-Change, published-Change, woken-Change, make_promise-Sound,
}

module _ {V E : Type 0} where
  step-Sound :
      (construct : V → E ⊎ V) (move : V → (E ⊎ V) × V) (overwrite : Bool) {o t : Objects V E}
      (a : ℕ)
      → Step construct move overwrite o t
      → Sound (o.heap.state a)
      → Sound (t.heap.state a)
  step-Sound construct move overwrite {o} a (makes p e) s = make_promise-Sound o.heap a s
  step-Sound construct move overwrite {o} a (gets_future p f x h e) s =
      (get_future-Change o.heap h (o.promise p) x e).sound a s
  step-Sound construct move overwrite {o} a (sets_value p v h e) s =
      (set_value-Change construct o.heap h (o.promise p) v e).sound a s
  step-Sound construct move overwrite {o} a (sets_exception p x h e) s =
      (set_exception-Change o.heap h (o.promise p) x e).sound a s
  step-Sound construct move overwrite {o} a (exchanges p b st at_b e which) s =
      (exchanged-Change o.heap b st (o.promise p) at_b which).sound a s
  step-Sound construct move overwrite {o} a (publishes b x made going) s =
      (published-Change o.heap b x none going).sound a s
  step-Sound construct move overwrite {o} a (wakes b r) s = (woken-Change o.heap b none).sound a s
  step-Sound construct move overwrite {o} a (destroys p) s =
      (destroy-Change o.heap (o.promise p)).sound a s
  step-Sound construct move overwrite a (assigns p q ne ok') s = s
  step-Sound construct move overwrite a (swaps p q) s = s
  step-Sound construct move overwrite {o} a (waits i f b h e) s =
      (wait-Change i o.heap h (o.future f) b none e).sound a s
  step-Sound construct move overwrite {o} a (gets i f) s =
      (get-Change move i o.heap (o.future f) none).sound a s
  step-Sound construct move overwrite a (shares f g x y e) s = s

  -- In every reachable state, a shared state that is ready has the value or the exception that its
  -- status says.
  pub Reach-Sound :
      (construct : V → E ⊎ V) (move : V → (E ⊎ V) × V) (overwrite : Bool) {o : Objects V E}
      → Reach construct move overwrite start o
      → (a : ℕ) → Sound (o.heap.state a)
  unfolding outcome
  Reach-Sound construct move overwrite here a = record { defined = λ r. absurd (ground arith) }
  Reach-Sound construct move overwrite (next r st) a =
      step-Sound construct move overwrite a st (Reach-Sound construct move overwrite r a)
