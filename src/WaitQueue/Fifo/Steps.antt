-- ===== src/WaitQueue/Fifo/Steps.antt =====
-- Each operation of the wait queue of include/coopsync_tbb/detail/wait_queue.hpp and
-- src/wait_queue.cpp does what it does on the queue of tasks.
use mathlib.Core.List.{map-append}
use coopsync_tbb.Base.{
  ℕ, zero, suc, ◌+◌, ◌<◌, ◌≡◌, refl, sym, subst, Bool, Bool-cases, inl, inr, true, false, List, [],
  ◌∷◌, ◌++◌, map, arith, ◌==◌, count, length, take, drop, ap, ap₂, ◌∙◌,
}
use coopsync_tbb.Tbb.{Tbb}
use coopsync_tbb.IntrusiveList.{null, IntrusiveList, empty_list, pop_front, push_back}
use coopsync_tbb.IntrusiveList.Chain.{IsList_frame}
use coopsync_tbb.IntrusiveList.Laws.{IsFresh}
use coopsync_tbb.WaitQueue.{
  WaitQueue, do_resume_all, resume_one, resume_all, move_over, resume_n, suspend_if,
}
use coopsync_tbb.WaitQueue.Resumption.{resume_each}
use coopsync_tbb.WaitQueue.Refinement.{
  Holds, resume_one-nil, resume_one-cons, resume_all-Holds, resume_n-Holds, suspend_if-Holds,
}
use coopsync_tbb.WaitQueue.Fifo.{
  Op, waits, resumes_one, resumes, resumes_all, Fifo, specified, node_of, construct, as_number,
  implemented, Enabled, Refines,
}

module _ (tbb : Tbb) where
  do_resume_all-value :
      (fuel : ℕ) (q : WaitQueue tbb) (l : IntrusiveList)
      → (do_resume_all tbb fuel q l).value ≡ q.value
  unfolding do_resume_all
  do_resume_all-value zero q l = refl
  do_resume_all-value (suc fuel) q l =
      let (waiter, next, l') = pop_front q.next l in
      let q' : WaitQueue tbb = record q {
        next = next;
        world = tbb.resume q.world (q.value waiter);
      } in
      elim (Bool-cases (waiter == null)) [
        | inl e ↦ rw e refl
        | inr e ↦ rw e (do_resume_all-value fuel q' l')
      ]

  move_over-value :
      (left : ℕ) (q : WaitQueue tbb) (l : IntrusiveList) (resumed : ℕ)
      → (move_over tbb left q l resumed).1.value ≡ q.value
  unfolding move_over
  move_over-value zero q l resumed = refl
  move_over-value (suc left) q l resumed =
      let (waiter, next, waiters) = pop_front q.next q.waiters in
      let (next', l') = push_back next l waiter in
      let q' : WaitQueue tbb = record q { next = next'; waiters = waiters } in
      elim (Bool-cases (waiter == null)) [
        | inl e ↦ rw e refl
        | inr e ↦ rw e (move_over-value left q' l' (resumed + 1))
      ]

  resume_n-value : (fuel n : ℕ) (q : WaitQueue tbb) → (resume_n tbb fuel q n).1.value ≡ q.value
  unfolding resume_n
  resume_n-value fuel n q =
      let (resumed, q', taken) = move_over tbb n q empty_list 0 in
      elim (Bool-cases (n == 0)) [
        | inl e ↦ rw e refl
        | inr e ↦ rw e (do_resume_all-value fuel q' taken ∙ move_over-value n q empty_list 0)
      ]

  map-take : (f : ℕ → ℕ) (n : ℕ) (xs : List ℕ) → map f (take n xs) ≡ take n (map f xs)
  map-take f zero xs = refl
  map-take f (suc n) [] = refl
  map-take f (suc n) (x ∷ xs) = ap (λ ys. f x ∷ ys) (map-take f n xs)

  map-drop : (f : ℕ → ℕ) (n : ℕ) (xs : List ℕ) → map f (drop n xs) ≡ drop n (map f xs)
  map-drop f zero xs = refl
  map-drop f (suc n) [] = refl
  map-drop f (suc n) (x ∷ xs) = map-drop f n xs

  length-map : (f : ℕ → ℕ) (xs : List ℕ) → length (map f xs) ≡ length xs
  length-map f [] = refl
  length-map f (x ∷ xs) = ap suc (length-map f xs)

  count-node_of : (i : ℕ) (xs : List ℕ) → count (node_of i) (map node_of xs) ≡ count i xs
  count-node_of i [] = refl
  count-node_of i (x ∷ xs) = ground (arith, count-node_of i xs)

  -- A task that comes: its node is fresh.
  wait-Refines :
      (q : WaitQueue tbb) (f : Fifo tbb) (i : ℕ) (b : Bool)
      → count i f.tasks ≡ 0
      → Refines tbb q f
      → Refines tbb
          (suspend_if tbb (construct tbb q (node_of i)) i (node_of i) b)
          (specified tbb (waits i b) f).1
  unfolding specified suspend_if
  wait-Refines q f i b new r =
      let node = node_of i in
      let q' = construct tbb q node in
      let out : count node (map node_of f.tasks) ≡ 0 = count-node_of i f.tasks ∙ new in
      let nodes' : Holds tbb q' (map node_of f.tasks) =
        IsList_frame q.next q'.next q.waiters (map node_of f.tasks) (λ x m. ground arith) r.nodes in
      let fresh : IsFresh q'.next (map node_of f.tasks) node = record {
        ne_null = λ e. omega arith;
        no_next = ground arith;
        outside = out;
      } in
      let placed = suspend_if-Holds tbb q' i node (map node_of f.tasks) nodes' fresh in
      let behind : map node_of (f.tasks ++ i ∷ []) ≡ map node_of f.tasks ++ node ∷ [] =
        map-append node_of f.tasks (i ∷ []) in
      elim b as (λ b. Refines tbb (suspend_if tbb q' i node b) (specified tbb (waits i b) f).1) [
        | true ↦ record {
          nodes = subst (Holds tbb (suspend_if tbb q' i node true)) (sym behind) placed.0;
          names =
              ap (map (suspend_if tbb q' i node true).value) behind
              ∙ placed.1
              ∙ ap (λ ts. ts ++ i ∷ []) r.names;
          same_world = ap (λ w. tbb.suspend w i) r.same_world;
        }
        | false ↦ record {
          nodes = placed.2;
          names = r.names;
          same_world = ap (λ w. tbb.resume (tbb.suspend w i) i) r.same_world;
        }
      ]

  one-Refines :
      (q : WaitQueue tbb) (w : tbb.World) (ts : List ℕ)
      → Refines tbb q (record { tasks = ts; world = w })
      → (as_number (resume_one tbb q).0 ≡ length (take 1 ts))
        × Refines tbb
            (resume_one tbb q).1
            (record { tasks = drop 1 ts; world = resume_each tbb w (take 1 ts) })
  one-Refines q w [] r = rw (resume_one-nil tbb q r.nodes) (refl, r)
  one-Refines q w (t ∷ ts) r =
      let did = resume_one-cons tbb q (node_of t) (map node_of ts) r.nodes in
      (
        rw did.0 refl,
        record {
          nodes = did.1;
          names = rw did.3 (ap (drop 1) r.names);
          same_world = did.2 ∙ ap₂ (resume_each tbb) r.same_world (ap (take 1) r.names);
        },
      )

  some-Refines :
      (fuel n : ℕ) (q : WaitQueue tbb) (f : Fifo tbb)
      → length f.tasks < fuel
      → Refines tbb q f
      → ((resume_n tbb fuel q n).0 ≡ length (take n f.tasks))
        × Refines tbb
            (resume_n tbb fuel q n).1
            (record { tasks = drop n f.tasks; world = resume_each tbb f.world (take n f.tasks) })
  some-Refines fuel n q f enough r =
      let did =
        resume_n-Holds tbb fuel n q (map node_of f.tasks) r.nodes
          (rw (length-map node_of f.tasks) enough) in
      let taken : map q.value (take n (map node_of f.tasks)) ≡ take n f.tasks =
        map-take q.value n (map node_of f.tasks) ∙ ap (take n) r.names in
      (
        did.0 ∙ ap length (sym (map-take node_of n f.tasks)) ∙ length-map node_of (take n f.tasks),
        record {
          nodes =
              subst (Holds tbb (resume_n tbb fuel q n).1) (sym (map-drop node_of n f.tasks)) did.1;
          names =
              ap₂ map (resume_n-value fuel n q) (map-drop node_of n f.tasks)
              ∙ map-drop q.value n (map node_of f.tasks)
              ∙ ap (drop n) r.names;
          same_world = did.2 ∙ ap₂ (resume_each tbb) r.same_world taken;
        },
      )

  all-Refines :
      (fuel : ℕ) (q : WaitQueue tbb) (f : Fifo tbb)
      → length f.tasks < fuel
      → Refines tbb q f
      → Refines tbb
          (resume_all tbb fuel q)
          (record { tasks = []; world = resume_each tbb f.world f.tasks })
  all-Refines fuel q f enough r =
      let did =
        resume_all-Holds tbb fuel q (map node_of f.tasks) r.nodes
          (rw (length-map node_of f.tasks) enough) in
      record {
        nodes = did.0;
        names = refl;
        same_world = did.1 ∙ ap₂ (resume_each tbb) r.same_world r.names;
      }

  pub op-Refines :
      (fuel : ℕ) (o : Op) (q : WaitQueue tbb) (f : Fifo tbb)
      → Enabled tbb o f
      → length f.tasks < fuel
      → Refines tbb q f
      → ((implemented tbb fuel o q).0 ≡ (specified tbb o f).0)
        × Refines tbb (implemented tbb fuel o q).1 (specified tbb o f).1
  unfolding implemented specified
  op-Refines fuel (waits i true) q f new enough r = (refl, wait-Refines q f i true new r)
  op-Refines fuel (waits i false) q f new enough r = (refl, wait-Refines q f i false new r)
  op-Refines fuel resumes_one q f u enough r = one-Refines q f.world f.tasks r
  op-Refines fuel (resumes n) q f u enough r = some-Refines fuel n q f enough r
  op-Refines fuel resumes_all q f u enough r = (refl, all-Refines fuel q f enough r)
