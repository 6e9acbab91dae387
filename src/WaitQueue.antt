-- ===== src/WaitQueue.antt =====
-- include/coopsync_tbb/detail/wait_queue.hpp and src/wait_queue.cpp, over the intrusive list. A
-- section under `m_waiters_mutex` is one function; what follows it is another.
pub mod Refinement
pub mod Resumption
pub mod Lifetime
pub mod Fifo
use coopsync_tbb.Base.{ℕ, zero, suc, ◌+◌, Bool, true, false, if◌then◌else◌, ◌==◌, update}
use coopsync_tbb.Tbb.{Tbb}
use coopsync_tbb.IntrusiveList.{
  Ptr, null, Next, IntrusiveList, empty_list, push_back, pop_front, empty, swap,
}

module _ (tbb : Tbb) where
  -- The nodes of all waiters, `m_waiters`, and the scheduler.
  pub record WaitQueue : Type 0 where
    pub next : Next
    pub value : Ptr → ℕ
    pub waiters : IntrusiveList
    pub world : tbb.World

  -- The list is one of the caller's; the loop ends with it. The fuel bounds the number of rounds.
  unfoldable pub do_resume_all : ℕ → WaitQueue → IntrusiveList → WaitQueue
  do_resume_all zero q l = q
  do_resume_all (suc fuel) q l =
      let (waiter, next, l') = pop_front q.next l in
      let rest =
        do_resume_all fuel (record q { next = next; world = tbb.resume q.world (q.value waiter) })
          l' in
      if waiter == null then q else rest

  unfoldable pub resume_one : WaitQueue → Bool × WaitQueue
  resume_one q =
      let (waiter, next, l) = pop_front q.next q.waiters in
      let q' : WaitQueue = record q { next = next; waiters = l } in
      if waiter == null
      then (false, q')
      else (true, record q' { world = tbb.resume q.world (q.value waiter) })

  unfoldable pub resume_all : ℕ → WaitQueue → WaitQueue
  resume_all fuel q =
      let (waiters_to_resume, waiters) = swap empty_list q.waiters in
      do_resume_all fuel (record q { waiters = waiters }) waiters_to_resume

  -- The loop of `resume_n` that moves nodes over, with `n - resumed` rounds left.
  unfoldable pub move_over : ℕ → WaitQueue → IntrusiveList → ℕ → ℕ × WaitQueue × IntrusiveList
  move_over zero q l resumed = (resumed, q, l)
  move_over (suc left) q l resumed =
      let (waiter, next, waiters) = pop_front q.next q.waiters in
      let (next', l') = push_back next l waiter in
      let rest = move_over left (record q { next = next'; waiters = waiters }) l' (resumed + 1) in
      if waiter == null then (resumed, record q { next = next; waiters = waiters }, l) else rest

  unfoldable pub resume_n : ℕ → WaitQueue → ℕ → ℕ × WaitQueue
  resume_n fuel q n =
      if n == 0
      then (0, q)
      else let (resumed, q', waiters_to_resume) = move_over n q empty_list 0 in
        (resumed, do_resume_all fuel q' waiters_to_resume)

  -- The part of `wait_if` under the lock, at the node `node` of task `i`, for a predicate that came
  -- out as `b`.
  unfoldable pub suspend_if : WaitQueue → ℕ → Ptr → Bool → WaitQueue
  suspend_if q i node b =
      let asleep = tbb.suspend q.world i in
      if b
      then (record q {
        next = (push_back q.next q.waiters node).0;
        value = update q.value node i;
        waiters = (push_back q.next q.waiters node).1;
        world = asleep;
      })
      else record q { world = tbb.resume asleep i }

  unfoldable pub is_empty : WaitQueue → Bool
  is_empty q = empty q.waiters
