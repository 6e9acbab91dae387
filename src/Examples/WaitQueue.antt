-- ===== src/Examples/WaitQueue.antt =====
-- Nodes 10, 20 and 30, of the tasks 1, 2 and 3, in the list of a wait queue.
use coopsync_tbb.Base.{◌≡◌, refl, true, false, List, [], ◌∷◌, map, arith, if◌then◌else◌, ◌==◌}
use coopsync_tbb.Tbb.{flags}
use coopsync_tbb.IntrusiveList.{Ptr, Next, IntrusiveList, empty_list}
use coopsync_tbb.IntrusiveList.Chain.{IsList}
use coopsync_tbb.IntrusiveList.Laws.{IsList-empty, IsFresh}
use coopsync_tbb.WaitQueue.{WaitQueue, resume_n}
use coopsync_tbb.WaitQueue.Refinement.{Holds}
use coopsync_tbb.WaitQueue.Lifetime.{Garbage, resume_n_reused, resume_n-unread}
use coopsync_tbb.WaitQueue.Fifo.{
  Op, waits, resumes_one, resumes, resumes_all, specified, Refines, run_specified, run_implemented,
}
use coopsync_tbb.WaitQueue.Fifo.Simulation.{run-Refines}
use coopsync_tbb.IntrusiveList.RoundTrip.{push_and_pop, AreFresh, push_pop}
use coopsync_tbb.Examples.{awake}

abbrev links : Next
links p = if p == 10 then 20 else if p == 20 then 30 else 0

abbrev three : IntrusiveList
three = record { head = 10; tail = 30 }

abbrev nodes : List Ptr
nodes = 10 ∷ 20 ∷ 30 ∷ []

three-IsList : IsList links three nodes
three-IsList = record { chain = ground arith; tail = refl; once = λ x. ground arith }

fresh : IsFresh links nodes 40
fresh = record { ne_null = λ e. omega arith; no_next = refl; outside = refl }

abbrev queue : WaitQueue flags
queue = record {
  next = links;
  value = λ p. if p == 10 then 1 else if p == 20 then 2 else 3;
  waiters = three;
  world = awake;
}

-- Tasks 1 and 2 come, one is resumed, task 3 comes twice, first in vain, and all are resumed.
abbrev ops : List Op
ops =
    waits 1 true
    ∷ waits 2 true
    ∷ resumes_one
    ∷ waits 3 false
    ∷ waits 3 true
    ∷ resumes 1
    ∷ resumes_all
    ∷ []

abbrev nobody : WaitQueue flags
nobody = record { next = λ p. 0; value = λ p. 0; waiters = empty_list; world = awake }

nobody-Refines : Refines flags nobody (record { tasks = []; world = awake })
nobody-Refines = record { nodes = IsList-empty (λ p. 0); names = refl; same_world = refl }

run-Refines_example :
    ((run_implemented flags 8 ops nobody).0
      ≡ (run_specified flags ops (record { tasks = []; world = awake })).0)
    × Refines flags
        (run_implemented flags 8 ops nobody).1
        (run_specified flags ops (record { tasks = []; world = awake })).1
unfolding specified
run-Refines_example =
    run-Refines flags 8 ops nobody (record { tasks = []; world = awake })
      (refl, (refl, (tt, (refl, (refl, (tt, (tt, tt))))))) (ground arith) nobody-Refines

abbrev none_linked : Next
none_linked p = 0

none_linked-AreFresh : AreFresh none_linked (40 ∷ 20 ∷ [])
none_linked-AreFresh = record {
  ne_null = λ x m. ground arith;
  no_next = λ x m. refl;
  once = λ x. ground arith;
}

push_pop_example :
    ((push_and_pop none_linked (40 ∷ 20 ∷ [])).0 ≡ 40 ∷ 20 ∷ [])
    × IsList
        (push_and_pop none_linked (40 ∷ 20 ∷ [])).1
        (push_and_pop none_linked (40 ∷ 20 ∷ [])).2
        []
push_pop_example = push_pop none_linked (40 ∷ 20 ∷ []) none_linked-AreFresh

-- Once its task is resumed, a node points to itself and names task 99.
abbrev overwritten : Garbage
overwritten = record { next = λ p. p; value = λ p. 99 }

resume_n-unread_example :
    ((resume_n_reused flags overwritten 4 queue 2).0 ≡ (resume_n flags 4 queue 2).0)
    × ((resume_n_reused flags overwritten 4 queue 2).1.world ≡ (resume_n flags 4 queue 2).1.world)
    × Holds flags (resume_n_reused flags overwritten 4 queue 2).1 (30 ∷ [])
    × (map (resume_n_reused flags overwritten 4 queue 2).1.value (30 ∷ [])
        ≡ map queue.value (30 ∷ []))
resume_n-unread_example =
    resume_n-unread flags overwritten 4 2 queue nodes three-IsList (omega arith)
