-- ===== src/WaitFor/Streams.antt =====
-- A task that waits for several streams: `multi_stream_context`, `multi_stream_item` and the
-- functions that use them, in include/coopsync_tbb/cuda/wait_for.hpp; hip/wait_for.hpp has the same.
-- The code that registers the callbacks, the callbacks and the task take turns in any order.
mod Invariant
mod Preserved
pub mod Resumption
pub mod Termination
pub mod Rest
pub mod Outlived
use coopsync_tbb.Base.{
  ℕ, zero, suc, ◌-◌, ◌^◌, Bool, true, false, Option, none, some, List, [], ◌∷◌, if◌then◌else◌, ◌==◌,
  ltb, leb, update,
}
use coopsync_tbb.WaitFor.{Callbacks}

-- Where the functor that `suspend` calls stands in its loop.
pub data Loop : Type 0 where
  check : ℕ → Loop  -- about to test whether this item is the last one
  failing : ℕ → Loop  -- notifies this item, whose registration has failed
  left : Loop

-- An item, up to the end of its `notify`.
pub data Item (Err : Type 0) : Type 0 where
  unregistered : Item Err
  queued : Item Err  -- the runtime has the callback
  called : Err → Item Err  -- `notify` is about to store the status
  written : Item Err  -- `notify_one` is about to count down
  last : Item Err  -- `notify_one` has counted to zero, and is about to resume the task
  over : Item Err

abbrev pub is_over : {Err : Type 0} → Item Err → Bool
is_over over = true
is_over _ = false

-- `returned` is what the caller gets: the error codes in the order of the items.
pub record Wait (Err : Type 0) : Type 0 where
  pub loop : Loop
  pub item : ℕ → Item Err
  pub pending : ℕ
  pub errs : ℕ → Err
  pub resumes : ℕ
  pub returned : Option (List Err)

pub data Event : Type 0 where
  goes_on : Event  -- the functor
  delivers : ℕ → Event  -- the runtime calls the callback of this item
  notifies : ℕ → Event  -- a step of the item's `notify`
  returns : Event  -- the task, once it is resumed

-- The first `n` members of a family.
abbrev pub listed {ℓ} : {A : Type ℓ} → ℕ → (ℕ → A) → List A
listed zero f = []
listed (suc n) f = f 0 ∷ listed n (λ i. f (suc i))

-- `pending.fetch_sub(1)` on a `size_t`
abbrev pub count_down : ℕ → ℕ
count_down p = if p == 0 then 2 ^ 64 - 1 else p - 1

module _ {Err : Type 0} (cb : Callbacks Err) (n : ℕ) where
  -- The state before the loop. If there is nothing to wait for, the task returns at once.
  unfoldable pub start : Wait Err
  start = record {
    loop = if n == 0 then left else check 0;
    item = λ _. unregistered;
    pending = n;
    errs = λ _. cb.success;
    resumes = 0;
    returned = if n == 0 then some [] else none;
  }

  -- The body of the loop, with `register_callback`.
  unfoldable pub register : ℕ → Wait Err → Wait Err
  register i s =
      if cb.is_success (cb.registration i)
      then (record s { item = update s.item i queued; loop = check (suc i) })
      else (record s { item = update s.item i (called (cb.registration i)); loop = failing i })

  unfoldable pub go_on : Loop → Wait Err → Wait Err
  unfolding register
  go_on (check i) s = if ltb i n then register i s else record s { loop = left }
  go_on (failing i) s = if is_over (s.item i) then record s { loop = check (suc i) } else s
  go_on left s = s

  unfoldable pub deliver : ℕ → Item Err → Wait Err → Wait Err
  deliver i queued s = record s { item = update s.item i (called (cb.reported i)) }
  deliver i _ s = s

  -- `multi_stream_item::notify` and `multi_stream_context::notify_one`
  unfoldable pub notify : ℕ → Item Err → Wait Err → Wait Err
  notify i (called e) s = record s { errs = update s.errs i e; item = update s.item i written }
  notify i written s = record s {
    pending = count_down s.pending;
    item = update s.item i (if s.pending == 1 then last else over);
  }
  notify i last s = record s { resumes = suc s.resumes; item = update s.item i over }
  notify i _ s = s

  abbrev pub finish : Option (List Err) → Wait Err → Wait Err
  finish none s = if leb 1 s.resumes then record s { returned = some (listed n s.errs) } else s
  finish (some r) s = s

  unfoldable pub step : Event → Wait Err → Wait Err
  unfolding go_on deliver notify
  step goes_on s = go_on s.loop s
  step (delivers i) s = deliver i (s.item i) s
  step (notifies i) s = notify i (s.item i) s
  step returns s = finish s.returned s

  -- Any order of events.
  abbrev pub run : List Event → Wait Err → Wait Err
  run [] s = s
  run (e ∷ es) s = run es (step e s)
