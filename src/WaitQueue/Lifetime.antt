-- ===== src/WaitQueue/Lifetime.antt =====
-- The nodes of src/wait_queue.cpp stand on the stacks of the suspended tasks: once a task is resumed,
-- its node is gone, and the memory may hold anything.
use coopsync_tbb.Base.{
  ℕ, zero, suc, ◌<◌, ◌≡◌, ◌∙◌, refl, sym, ap, ap₂, false, List, [], ◌∷◌, map, arith, if◌then◌else◌,
  ◌==◌, update, count, length, take, drop, count-take-drop, length-take-le,
}
use coopsync_tbb.Tbb.{Tbb}
use coopsync_tbb.IntrusiveList.{Ptr, null, IntrusiveList, empty_list, pop_front, swap}
use coopsync_tbb.IntrusiveList.Chain.{IsList, IsList_frame}
use coopsync_tbb.IntrusiveList.Laws.{IsList-empty, pop_front-nil, pop_front-cons}
use coopsync_tbb.WaitQueue.{WaitQueue, resume_all, resume_n, move_over}
use coopsync_tbb.WaitQueue.Refinement.{Holds, resume_all-Holds, move_over-Moved}
use coopsync_tbb.WaitQueue.Resumption.{resume_each, do_resume_all-Resumes}

-- What the memory of a node holds after its task has been resumed.
pub record Garbage : Type 0 where
  pub next : Ptr → Ptr
  pub value : Ptr → ℕ

module _ (tbb : Tbb) (g : Garbage) where
  -- The resumed task has left the function that its node belonged to.
  abbrev pub reused : Ptr → WaitQueue tbb → WaitQueue tbb
  reused x q = record q { next = update q.next x (g.next x); value = update q.value x (g.value x) }

  -- `do_resume_all`, where each node is reused as soon as its task is resumed.
  unfoldable pub do_resume_all_reused : ℕ → WaitQueue tbb → IntrusiveList → WaitQueue tbb
  do_resume_all_reused zero q l = q
  do_resume_all_reused (suc fuel) q l =
      let (waiter, next, l') = pop_front q.next l in
      let resumed : WaitQueue tbb = record q {
        next = next;
        world = tbb.resume q.world (q.value waiter);
      } in
      let rest = do_resume_all_reused fuel (reused waiter resumed) l' in
      if waiter == null then q else rest

  unfoldable pub resume_all_reused : ℕ → WaitQueue tbb → WaitQueue tbb
  resume_all_reused fuel q =
      let (waiters_to_resume, waiters) = swap empty_list q.waiters in
      do_resume_all_reused fuel (record q { waiters = waiters }) waiters_to_resume

  unfoldable pub resume_n_reused : ℕ → WaitQueue tbb → ℕ → ℕ × WaitQueue tbb
  resume_n_reused fuel q n =
      if n == 0
      then (0, q)
      else let (resumed, q', waiters_to_resume) = move_over tbb n q empty_list 0 in
        (resumed, do_resume_all_reused fuel q' waiters_to_resume)

  -- The scheduler is as if every node kept its memory, and so is each node that no resumed task has
  -- owned.
  record Unread (q r : WaitQueue tbb) (xs : List Ptr) : Type 0 where
    world : r.world ≡ resume_each tbb q.world (map q.value xs)
    waiters : r.waiters ≡ q.waiters
    frame : (y : Ptr) → count y xs ≡ 0 → (r.next y ≡ q.next y) × (r.value y ≡ q.value y)

  values_apart :
      (x : Ptr) (a : ℕ) (value : Ptr → ℕ) (xs : List Ptr)
      → count x xs ≡ 0
      → map (update value x a) xs ≡ map value xs
  values_apart x a value [] out = refl
  values_apart x a value (y ∷ xs) out = ground (arith, values_apart x a value xs)

  do_resume_all-Unread :
      (fuel : ℕ) (q : WaitQueue tbb) (l : IntrusiveList) (xs : List Ptr)
      → IsList q.next l xs
      → length xs < fuel
      → Unread q (do_resume_all_reused fuel q l) xs
  unfolding do_resume_all_reused
  do_resume_all-Unread zero q l xs is f = absurd (omega arith)
  do_resume_all-Unread (suc fuel) q l [] is f =
      rw (pop_front-nil q.next l is)
        (record { world = refl; waiters = refl; frame = λ y out. (refl, refl) })
  do_resume_all-Unread (suc fuel) q l (x ∷ xs) is f =
      let popped = pop_front-cons q.next l x xs is in
      let some' : ((pop_front q.next l).0 == null) ≡ false = ground arith in
      let q' : WaitQueue tbb = reused (pop_front q.next l).0 (record q {
        next = (pop_front q.next l).1;
        world = tbb.resume q.world (q.value (pop_front q.next l).0);
      }) in
      let left : IsList q'.next (pop_front q.next l).2 xs =
        IsList_frame (pop_front q.next l).1 q'.next (pop_front q.next l).2 xs
          (λ y m. ground (arith, is.once y, popped.0)) popped.2 in
      let rest = do_resume_all-Unread fuel q' (pop_front q.next l).2 xs left (omega arith) in
      let apart : count x xs ≡ 0 = ground (arith, is.once x) in
      rw some' (record {
        world =
            rest.world
            ∙ ap
                (λ p.
                  resume_each tbb (tbb.resume q.world (q.value p))
                    (map (update q.value p (g.value p)) xs))
                popped.0
            ∙ ap (resume_each tbb (tbb.resume q.world (q.value x)))
                (values_apart x (g.value x) q.value xs apart);
        waiters = rest.waiters;
        frame = λ y out.
            let kept = rest.frame y (ground arith) in
            (ground (arith, kept.0, popped.4 y), ground (arith, kept.1));
      })

  values_kept :
      (value value' : Ptr → ℕ) (xs : List Ptr)
      → ((y : Ptr) → 0 < count y xs → value' y ≡ value y)
      → map value' xs ≡ map value xs
  values_kept value value' [] same = refl
  values_kept value value' (x ∷ xs) same =
      ap₂ ◌∷◌ (same x (ground arith)) (values_kept value value' xs (λ y m. same y (ground arith)))

  -- With fuel for more rounds than there are waiters, `resume_all` resumes the same tasks in the same
  -- order if the memory of each node is overwritten as soon as its task is resumed.
  pub resume_all-unread :
      (fuel : ℕ) (q : WaitQueue tbb) (xs : List Ptr)
      → Holds tbb q xs
      → length xs < fuel
      → (resume_all_reused fuel q).world ≡ (resume_all tbb fuel q).world
  unfolding resume_all_reused swap
  resume_all-unread fuel q xs is f =
      let q' : WaitQueue tbb = record q { waiters = empty_list } in
      let taken : IntrusiveList = record { head = q.waiters.head; tail = q.waiters.tail } in
      let taken-IsList : IsList q.next taken xs = record {
        chain = is.chain;
        tail = is.tail;
        once = is.once;
      } in
      (do_resume_all-Unread fuel q' taken xs taken-IsList f).world
      ∙ sym (resume_all-Holds tbb fuel q xs is f).1

  -- The same of `resume_n`, which returns the same number; the tasks that go on waiting keep their
  -- nodes.
  pub resume_n-unread :
      (fuel n : ℕ) (q : WaitQueue tbb) (xs : List Ptr)
      → Holds tbb q xs
      → length xs < fuel
      → ((resume_n_reused fuel q n).0 ≡ (resume_n tbb fuel q n).0)
        × ((resume_n_reused fuel q n).1.world ≡ (resume_n tbb fuel q n).1.world)
        × Holds tbb (resume_n_reused fuel q n).1 (drop n xs)
        × (map (resume_n_reused fuel q n).1.value (drop n xs) ≡ map q.value (drop n xs))
  unfolding resume_n_reused resume_n
  resume_n-unread fuel zero q xs is f = (refl, refl, is, refl)
  resume_n-unread fuel (suc n) q xs is f =
      let taken : List Ptr = take (suc n) xs in
      let rest : List Ptr = drop (suc n) xs in
      let r : ℕ × WaitQueue tbb × IntrusiveList = move_over tbb (suc n) q empty_list 0 in
      let moved =
        move_over-Moved tbb (suc n) q empty_list xs [] 0 is (IsList-empty q.next)
          (λ z. ground (arith, is.once z)) in
      let few : length taken < fuel = ground (arith, length-take-le (suc n) xs) in
      let apart : (y : Ptr) → 0 < count y rest → count y taken ≡ 0 =
        λ y m. ground (arith, is.once y, count-take-drop y (suc n) xs) in
      let done = do_resume_all-Unread fuel r.1 r.2 taken moved.taken few in
      let plain = do_resume_all-Resumes tbb fuel r.1 r.2 taken moved.taken few in
      let kept : Holds tbb (do_resume_all_reused fuel r.1 r.2) rest = rw done.waiters (
        IsList_frame r.1.next (do_resume_all_reused fuel r.1 r.2).next r.1.waiters rest
          (λ y m. (done.frame y (apart y m)).0) moved.kept) in
      let some' : (suc n == 0) ≡ false = ground arith in
      rw some' (
        refl,
        done.world ∙ sym plain.world,
        kept,
        values_kept r.1.value (do_resume_all_reused fuel r.1 r.2).value rest
              (λ y m. (done.frame y (apart y m)).1)
            ∙ ap (λ v. map v rest) moved.value,
      )
