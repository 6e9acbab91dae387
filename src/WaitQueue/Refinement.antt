-- ===== src/WaitQueue/Refinement.antt =====
-- What the functions of `wait_queue` do to the sequence of waiting tasks.
use coopsync_tbb.Base.{
  ℕ, zero, suc, ◌+◌, ◌<◌, ◌≤◌, ◌≡◌, ◌≢◌, refl, true, false, List, [], ◌∷◌, ◌++◌, map, arith, ◌==◌,
  update, count, count-append, count-take-drop, length-take-le, length, take, drop, append_assoc,
  append-nil, ap, ap₂, ◌∙◌,
}
use coopsync_tbb.Tbb.{Tbb}
use coopsync_tbb.IntrusiveList.{
  Ptr, null, Next, IntrusiveList, empty_list, push_back, pop_front, swap,
}
use coopsync_tbb.IntrusiveList.Chain.{IsList, IsList_frame}
use coopsync_tbb.IntrusiveList.Laws.{
  IsList-empty, IsFresh, push_back-IsList, pop_front-nil, pop_front-cons,
}
use coopsync_tbb.WaitQueue.{
  WaitQueue, do_resume_all, resume_one, resume_all, move_over, resume_n, suspend_if,
}
use coopsync_tbb.WaitQueue.Resumption.{resume_each, do_resume_all-Resumes}

-- No node stands in both lists.
abbrev pub Apart : List Ptr → List Ptr → Type 0
Apart xs ys = (z : Ptr) → count z xs + count z ys ≤ 1

map-update :
    (value : Ptr → ℕ) (i node : ℕ) (xs : List Ptr)
    → count node xs ≡ 0
    → map (update value node i) (xs ++ node ∷ []) ≡ map value xs ++ i ∷ []
map-update value i node [] out = ground arith
map-update value i node (x ∷ xs) out = ground (arith, map-update value i node xs)

module _ (tbb : Tbb) where
  -- A wait queue whose waiters are at the nodes `xs`.
  abbrev pub Holds : WaitQueue tbb → List Ptr → Type 0
  Holds q xs = IsList q.next q.waiters xs

  -- If nobody waits, `resume_one` returns false and changes nothing.
  pub resume_one-nil : (q : WaitQueue tbb) → Holds q [] → resume_one tbb q ≡ (false, q)
  unfolding resume_one
  resume_one-nil q is = rw (pop_front-nil q.next q.waiters is)

  -- If a task waits, `resume_one` resumes the first one, keeps the others in order, and returns true.
  pub resume_one-cons :
      (q : WaitQueue tbb) (x : Ptr) (xs : List Ptr)
      → Holds q (x ∷ xs)
      → ((resume_one tbb q).0 ≡ true)
        × Holds (resume_one tbb q).1 xs
        × ((resume_one tbb q).1.world ≡ tbb.resume q.world (q.value x))
        × ((resume_one tbb q).1.value ≡ q.value)
  unfolding resume_one
  resume_one-cons q x xs is =
      let popped = pop_front-cons q.next q.waiters x xs is in
      let some' : ((pop_front q.next q.waiters).0 == null) ≡ false = ground arith in
      rw some' (refl, popped.2, ap (λ p. tbb.resume q.world (q.value p)) popped.0, refl)

  -- With fuel for more rounds than there are waiters, `resume_all` resumes all of them in order, and
  -- nobody waits any more.
  pub resume_all-Holds :
      (fuel : ℕ) (q : WaitQueue tbb) (xs : List Ptr)
      → Holds q xs
      → length xs < fuel
      → Holds (resume_all tbb fuel q) []
        × ((resume_all tbb fuel q).world ≡ resume_each tbb q.world (map q.value xs))
  unfolding resume_all swap
  resume_all-Holds fuel q xs is f =
      let q' : WaitQueue tbb = record q { waiters = empty_list } in
      let taken : IntrusiveList = record { head = q.waiters.head; tail = q.waiters.tail } in
      let done =
        do_resume_all-Resumes tbb fuel q' taken xs
          (record { chain = is.chain; tail = is.tail; once = is.once }) f in
      (rw done.waiters (IsList-empty (do_resume_all tbb fuel q' taken).next), done.world)

  -- What the loop of `resume_n` leaves behind: the first tasks on the caller's list, the rest on the
  -- queue.
  pub record Moved (q : WaitQueue tbb) (xs ys : List Ptr) (left resumed : ℕ)
      (r : ℕ × WaitQueue tbb × IntrusiveList) : Type 0 where
    pub number : r.0 ≡ resumed + length (take left xs)
    pub kept : Holds r.1 (drop left xs)
    pub taken : IsList r.1.next r.2 (ys ++ take left xs)
    pub world : r.1.world ≡ q.world
    pub value : r.1.value ≡ q.value

  pub move_over-Moved :
      (left : ℕ) (q : WaitQueue tbb) (l : IntrusiveList) (xs ys : List Ptr) (resumed : ℕ)
      → Holds q xs
      → IsList q.next l ys
      → Apart xs ys
      → Moved q xs ys left resumed (move_over tbb left q l resumed)
  unfolding move_over
  move_over-Moved zero q l xs ys resumed is mine apart = record {
    number = omega arith;
    kept = is;
    taken = rw append-nil mine;
    world = refl;
    value = refl;
  }
  move_over-Moved (suc left) q l [] ys resumed is mine apart =
      rw (pop_front-nil q.next q.waiters is) (record {
        number = omega arith;
        kept = is;
        taken = rw append-nil mine;
        world = refl;
        value = refl;
      })
  move_over-Moved (suc left) q l (x ∷ xs) ys resumed is mine apart =
      let popped = pop_front-cons q.next q.waiters x xs is in
      let some' : ((pop_front q.next q.waiters).0 == null) ≡ false = ground arith in
      let next : Next = (pop_front q.next q.waiters).1 in
      let waiters : IntrusiveList = (pop_front q.next q.waiters).2 in
      let mine' : IsList next l ys =
        IsList_frame q.next next l ys (λ y m. popped.4 y (λ e. ground (arith, apart y))) mine in
      let fresh : IsFresh next ys x = record {
        ne_null = popped.1;
        no_next = popped.3;
        outside = ground (arith, apart x);
      } in
      let pushed = push_back-IsList next l ys x mine' fresh in
      let next' : Next = (push_back next l x).0 in
      let left_over : IsList next' waiters xs =
        IsList_frame next next' waiters xs (λ y m. pushed.1 y (ground (arith, apart y))) popped.2 in
      let q' : WaitQueue tbb = record q { next = next'; waiters = waiters } in
      let rest =
        move_over-Moved left q' (push_back next l x).1 xs (ys ++ x ∷ []) (resumed + 1) left_over
          pushed.0 (λ z. ground (arith, apart z, count-append z ys (x ∷ []))) in
      rw some' (
        rw popped.0 (record {
          number = omega (arith, rest.number);
          kept = rest.kept;
          taken = rw (append_assoc ys (x ∷ []) (take left xs)) at rest.taken;
          world = rest.world;
          value = rest.value;
        }))

  -- With fuel for more rounds than there are waiters, `resume_n` resumes the first `n` of them in order,
  -- or all if they are fewer, keeps the others, and returns how many it has resumed.
  pub resume_n-Holds :
      (fuel n : ℕ) (q : WaitQueue tbb) (xs : List Ptr)
      → Holds q xs
      → length xs < fuel
      → ((resume_n tbb fuel q n).0 ≡ length (take n xs))
        × Holds (resume_n tbb fuel q n).1 (drop n xs)
        × ((resume_n tbb fuel q n).1.world ≡ resume_each tbb q.world (map q.value (take n xs)))
  unfolding resume_n
  resume_n-Holds fuel zero q xs is f = (refl, is, refl)
  resume_n-Holds fuel (suc n) q xs is f =
      let taken : List Ptr = take (suc n) xs in
      let r : ℕ × WaitQueue tbb × IntrusiveList = move_over tbb (suc n) q empty_list 0 in
      let moved =
        move_over-Moved (suc n) q empty_list xs [] 0 is (IsList-empty q.next)
          (λ z. ground (arith, is.once z)) in
      let done =
        do_resume_all-Resumes tbb fuel r.1 r.2 taken moved.taken
          (ground (arith, length-take-le (suc n) xs)) in
      let kept : Holds (do_resume_all tbb fuel r.1 r.2) (drop (suc n) xs) = rw done.waiters (
        IsList_frame r.1.next (do_resume_all tbb fuel r.1 r.2).next r.1.waiters (drop (suc n) xs)
          (λ y m. done.frame y (ground (arith, is.once y, count-take-drop y (suc n) xs)))
          moved.kept) in
      let some' : (suc n == 0) ≡ false = ground arith in
      rw some' (
        omega (arith, moved.number),
        kept,
        done.world ∙ ap₂ (λ w v. resume_each tbb w (map v taken)) moved.world moved.value,
      )

  -- A task for which the predicate holds gets a node behind the others, which names it; otherwise the
  -- queue stays, and no other task is suspended or resumed.
  pub suspend_if-Holds :
      (q : WaitQueue tbb) (i node : ℕ) (xs : List Ptr)
      → Holds q xs
      → IsFresh q.next xs node
      → Holds (suspend_if tbb q i node true) (xs ++ node ∷ [])
        × (map (suspend_if tbb q i node true).value (xs ++ node ∷ []) ≡ map q.value xs ++ i ∷ [])
        × Holds (suspend_if tbb q i node false) xs
        × ((t : ℕ)
            → i ≢ t
            → tbb.is_suspended (suspend_if tbb q i node false).world t ≡ tbb.is_suspended q.world t)
  unfolding suspend_if
  suspend_if-Holds q i node xs is f = (
    (push_back-IsList q.next q.waiters xs node is f).0,
    map-update q.value i node xs f.outside,
    is,
    λ t ne. ground (
      arith,
      tbb.is_suspended-suspend q.world i t,
      tbb.is_suspended-resume (tbb.suspend q.world i) i t,
    ),
  )
