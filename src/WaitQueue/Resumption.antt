-- ===== src/WaitQueue/Resumption.antt =====
-- The loop `do_resume_all` of src/wait_queue.cpp: whom it resumes, and in which order.
use coopsync_tbb.Base.{
  ℕ, zero, suc, ◌<◌, ◌≡◌, refl, false, List, [], ◌∷◌, map, arith, ◌==◌, count, length, ap, ◌∙◌,
}
use coopsync_tbb.Tbb.{Tbb}
use coopsync_tbb.IntrusiveList.{Ptr, null, IntrusiveList, pop_front}
use coopsync_tbb.IntrusiveList.Chain.{IsList}
use coopsync_tbb.IntrusiveList.Laws.{pop_front-nil, pop_front-cons}
use coopsync_tbb.WaitQueue.{WaitQueue, do_resume_all}

module _ (tbb : Tbb) where
  abbrev pub resume_each : tbb.World → List ℕ → tbb.World
  resume_each w [] = w
  resume_each w (t ∷ ts) = resume_each (tbb.resume w t) ts

  -- From `q` to `r` the tasks at the nodes `xs` have been resumed, in this order, and the nodes of
  -- no other list have been written.
  pub record Resumes (q r : WaitQueue tbb) (xs : List Ptr) : Type 0 where
    pub world : r.world ≡ resume_each q.world (map q.value xs)
    pub waiters : r.waiters ≡ q.waiters
    pub value : r.value ≡ q.value
    pub frame : (y : Ptr) → count y xs ≡ 0 → r.next y ≡ q.next y

  pub do_resume_all-Resumes :
      (fuel : ℕ) (q : WaitQueue tbb) (l : IntrusiveList) (xs : List Ptr)
      → IsList q.next l xs
      → length xs < fuel
      → Resumes q (do_resume_all tbb fuel q l) xs
  unfolding do_resume_all
  do_resume_all-Resumes zero q l xs is f = absurd (omega arith)
  do_resume_all-Resumes (suc fuel) q l [] is f =
      rw (pop_front-nil q.next l is)
        (record { world = refl; waiters = refl; value = refl; frame = λ y out. refl })
  do_resume_all-Resumes (suc fuel) q l (x ∷ xs) is f =
      let popped = pop_front-cons q.next l x xs is in
      let some' : ((pop_front q.next l).0 == null) ≡ false = ground arith in
      let q' : WaitQueue tbb = record q {
        next = (pop_front q.next l).1;
        world = tbb.resume q.world (q.value (pop_front q.next l).0);
      } in
      let rest = do_resume_all-Resumes fuel q' (pop_front q.next l).2 xs popped.2 (omega arith) in
      rw some' (record {
        world =
            rest.world
            ∙ ap (λ p. resume_each (tbb.resume q.world (q.value p)) (map q.value xs)) popped.0;
        waiters = rest.waiters;
        value = rest.value;
        frame = λ y out. ground (arith, rest.frame y, popped.4 y);
      })
