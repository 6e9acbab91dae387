-- ===== src/Machine/Alarm/Lane.antt =====
-- One queue of the machine, the lane, under the operations on any queue.
use coopsync_tbb.Base.{
  ℕ, ◌≡◌, ◌≢◌, refl, Bool, true, false, List, [], ◌∷◌, ◌++◌, arith, count, count-append,
  count-take-drop, drop,
}
use coopsync_tbb.Machine.{QueueId, primary, secondary, set_queue}

abbrev pub same_queue : QueueId → QueueId → Bool
same_queue primary primary = true
same_queue primary secondary = false
same_queue secondary primary = false
same_queue secondary secondary = true

pub same_queue_refl : (q : QueueId) → same_queue q q ≡ true
same_queue_refl primary = refl
same_queue_refl secondary = refl

-- The lane after a change of a queue: the new list, or what it was.
set_queue-lane :
    (f : QueueId → List ℕ) (lane q : QueueId) (xs : List ℕ) (t : ℕ)
    → (same_queue lane q ≡ true → count t xs ≡ 0)
    → (same_queue lane q ≡ false → count t (f lane) ≡ 0)
    → count t (set_queue f q xs lane) ≡ 0
set_queue-lane f primary primary xs t h k = h refl
set_queue-lane f primary secondary xs t h k = k refl
set_queue-lane f secondary primary xs t h k = k refl
set_queue-lane f secondary secondary xs t h k = h refl

-- In the lane, the queue is the lane.
in_lane :
    (f : QueueId → List ℕ) (lane q : QueueId) (t : ℕ)
    → same_queue lane q ≡ true
    → count t (f lane) ≡ 0
    → count t (f q) ≡ 0
in_lane f primary primary t e z = z
in_lane f primary secondary t e z = cc
in_lane f secondary primary t e z = cc
in_lane f secondary secondary t e z = z

module _ (f : QueueId → List ℕ) (lane q : QueueId) (t : ℕ) where
  pub dropped : (k : ℕ) → count t (f lane) ≡ 0 → count t (set_queue f q (drop k (f q)) lane) ≡ 0
  dropped k z =
      set_queue-lane f lane q (drop k (f q)) t
        (λ e. omega (arith, in_lane f lane q t e z, count-take-drop t k (f q))) (λ e. z)

  pub emptied : same_queue lane q ≡ true → count t (set_queue f q [] lane) ≡ 0
  emptied e = set_queue-lane f lane q [] t (λ e'. refl) (λ e'. cc)

  pub elsewhere :
      (xs : List ℕ)
      → same_queue lane q ≡ false
      → count t (f lane) ≡ 0
      → count t (set_queue f q xs lane) ≡ 0
  elsewhere xs e z = set_queue-lane f lane q xs t (λ e'. cc) (λ e'. z)

  pub appended :
      (i : ℕ) → i ≢ t → count t (f lane) ≡ 0 → count t (set_queue f q (f q ++ i ∷ []) lane) ≡ 0
  appended i ne z =
      set_queue-lane f lane q (f q ++ i ∷ []) t
        (λ e. ground (arith, in_lane f lane q t e z, count-append t (f q) (i ∷ []))) (λ e. z)
