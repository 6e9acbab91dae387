-- ===== src/Examples/Future.antt =====
-- A promise of a number, its future, and a task that waits for it.
use coopsync_tbb.Base.{
  ℕ, ◌≡◌, refl, Bool, true, false, none, some, [], ◌∷◌, ◌++◌, ◌⊎◌, inl, inr, arith, update,
}
use coopsync_tbb.Future.{
  empty, Heap, suspended, new_state, make_shared, settle, set_value_at, value, broken, wait_at,
}
use coopsync_tbb.Future.Handles.{
  make_promise, get_future, wait, get, get_shared, set_value, destroy,
}
use coopsync_tbb.Future.Laws.{Refuses, satisfied_once}
use coopsync_tbb.Future.Storage.{Lives, destruct, emplace_each, new_storage, storage_balanced}
use coopsync_tbb.Future.Specialised.{map_result, fill_heap, set_void, get_shared_void, void_as_unit}
use coopsync_tbb.Future.Objects.{Objects, start, makes, gets_future, waits, Reach, here, next}
use coopsync_tbb.Future.Objects.Owners.{empty_owned}
use coopsync_tbb.Future.Objects.Abandoned.{assign_abandons, assigned}

abbrev construct : ℕ → Bool ⊎ ℕ
construct v = inr v

-- A move leaves 0.
abbrev moves : ℕ → (Bool ⊎ ℕ) × ℕ
moves v = (inr v, 0)

-- One shared state, for which task 7 waits.
abbrev heap : Heap ℕ Bool
heap = record {
  state =
      update (λ _. new_state) 0
        (record {
          status = empty;
          stored = none;
          error = none;
          future_obtained = true;
          waiters = 7 ∷ [];
        });
  size = 1;
  resumed = [];
}

abbrev set_heap : Heap ℕ Bool
set_heap = settle heap 0 (λ s. record s { status = value; stored = some 42 })

satisfied_once_example : Refuses construct set_heap (some 0)
unfolding set_value set_value_at
satisfied_once_example = satisfied_once construct heap set_heap (some 0) (inl (42, refl))

-- Promise 0 is made, future 0 is obtained from it, and task 7 waits.
abbrev none_made : Objects ℕ Bool
none_made = start

abbrev made : Objects ℕ Bool
made = record none_made {
  heap = (make_promise none_made.heap).1;
  promise = update none_made.promise 0 (some 0);
}

abbrev obtained : Heap ℕ Bool
obtained = record (made.heap) {
  state = update made.heap.state 0 (record (made.heap.state 0) { future_obtained = true });
}

abbrev waiting : Objects ℕ Bool
waiting = record made { heap = wait_at 7 obtained 0; future = update made.future 0 (some 0) }

waiting-Reach : (overwrite : Bool) → Reach construct moves overwrite start waiting
unfolding make_promise make_shared get_future wait wait_at
waiting-Reach overwrite =
    next (next (next here (makes 0 refl)) (gets_future 0 0 (some 0) obtained refl))
      (waits 7 0 false (wait_at 7 obtained 0) refl)

empty_owned_example :
    (p : ℕ) × (waiting.promise p ≡ some 0)
    × (((destroy waiting.heap (waiting.promise p)).state 0).status ≡ broken)
    × (((destroy waiting.heap (waiting.promise p)).state 0).waiters ≡ [])
    × ((destroy waiting.heap (waiting.promise p)).resumed
        ≡ waiting.heap.resumed ++ (waiting.heap.state 0).waiters)
unfolding make_promise make_shared wait_at
empty_owned_example = empty_owned construct moves (waiting-Reach false) 0 (omega arith) refl

assign_abandons_example : (get moves 3 (assigned waiting 0 1).heap (some 0)).0 ≡ suspended
unfolding make_promise make_shared wait_at
assign_abandons_example =
    assign_abandons construct moves true waiting (assigned waiting 0 1) 0 1 0 (λ e. ground arith)
      (λ r e. ground arith) (omega arith) refl here 3

-- Two values are emplaced, and between them a construction throws.
storage_balanced_example :
    Lives
      (destruct
        (emplace_each {T = ℕ} {E = Bool} new_storage (inr 5 ∷ inl true ∷ inr 6 ∷ []))).history
      none
storage_balanced_example = storage_balanced (inr 5 ∷ inl true ∷ inr 6 ∷ [])

-- One shared state of a promise of nothing.
abbrev void_heap : Heap (Unit {0}) Bool
void_heap = record { state = λ _. new_state; size = 1; resumed = [] }

void_as_unit_example :
    (map_result fill_heap (set_void void_heap (some 0))
      ≡ set_value (λ x. inr x) (fill_heap void_heap) (some 0) tt)
    × ((get_shared_void 3 void_heap (some 0)).0 ≡ (get_shared 3 (fill_heap void_heap) (some 0)).0)
void_as_unit_example = void_as_unit 3 void_heap (some 0) (some 0)
