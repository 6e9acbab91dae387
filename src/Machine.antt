-- ===== src/Machine.antt =====
-- Tasks that run one atomic action at a time over shared memory and two wait queues.
-- A primitive is a program for this machine: at each location of its code it names one action.
pub mod Occupancy
mod Local
pub mod Accounts
pub mod Wakes
pub mod Waits
pub mod Induction
pub mod Conserved
pub mod Waking
pub mod Alarm
pub mod Gate
pub mod Ownership
pub mod Quiet
pub mod Steps
pub mod Deadlock
use coopsync_tbb.Base.{
  ℕ, ◌<◌, ◌≡◌, Bool, true, false, List, [], ◌∷◌, ◌++◌, if◌then◌else◌, update, take, drop,
}
use coopsync_tbb.Tbb.{Tbb}

-- The wait queues of one primitive: `shared_mutex` has two, every other one has one.
pub data QueueId : Type 0 where
  primary secondary : QueueId

-- What a task does next. `L` are the locations of the primitive's code, `M` its atomic variables.
pub data Action (M L : Type 0) : Type 0 where
  -- one access of the atomic variables
  access : M → L → Action M L
  -- `wait_queue::wait_if`; the predicate is a single access, and may change the variables
  wait_if : QueueId → (M → Bool × M) → L → Action M L
  -- `wait_queue::resume_one`, with the code that follows for each result
  resume_one : QueueId → (Bool → L) → Action M L
  resume_n : QueueId → ℕ → L → Action M L
  resume_all : QueueId → L → Action M L

-- Where a task stands.
pub data Pc (M L : Type 0) : Type 0 where
  at : L → Pc M L
  -- in `wait_if`, after the fast path: about to take the lock of the queue
  recheck : QueueId → (M → Bool × M) → L → Pc M L
  -- in `wait_if`, suspended or resumed and not yet run
  parked : QueueId → L → Pc M L
  -- in a `resume_*` function, with the tasks that it has taken off the queue
  resuming : QueueId → List ℕ → L → Pc M L

-- The location where a task is, or goes on once it is out of the wait queue's code.
abbrev pub place : {M L : Type 0} → Pc M L → L
place (at l) = l
place (recheck _ _ l) = l
place (parked _ l) = l
place (resuming _ _ l) = l

pub record Program (M L : Type 0) : Type 1 where
  -- The Boolean says whether a weak compare-exchange fails spuriously.
  pub action : Bool → L → M → Action M L
  -- the calls that the code of a task may make, from a location outside the primitive
  pub Call : L → L → Type 0
  -- what the caller must see to, by the assertions on the arguments
  pub Allowed : L → M → Type 0

abbrev pub set_queue : (QueueId → List ℕ) → QueueId → List ℕ → QueueId → List ℕ
set_queue f primary xs primary = xs
set_queue f primary xs secondary = f secondary
set_queue f secondary xs primary = f primary
set_queue f secondary xs secondary = xs

module _ (tbb : Tbb) (M L : Type 0) where
  pub record State : Type 0 where
    pub mem : M
    pub queue : QueueId → List ℕ
    pub world : tbb.World

  pub record System : Type 0 where
    pub state : State
    pub pc : ℕ → Pc M L

module _ (tbb : Tbb) {M L : Type 0} where
  -- A location's action, up to the point where another task may come in between.
  unfoldable pub perform : State tbb M L → Action M L → State tbb M L × Pc M L
  perform s (access m l) = (record s { mem = m }, at l)
  perform s (wait_if q pred l) =
      (record s { mem = (pred s.mem).1 }, if (pred s.mem).0 then recheck q pred l else at l)
  perform s (resume_one q next) = (
    record s { queue = set_queue s.queue q (drop 1 (s.queue q)) },
    elim (s.queue q) [ [] ↦ at (next false) | t ∷ _ ↦ resuming q (t ∷ []) (next true) ],
  )
  perform s (resume_n q n l) = (
    record s { queue = set_queue s.queue q (drop n (s.queue q)) },
    resuming q (take n (s.queue q)) l,
  )
  perform s (resume_all q l) =
      (record s { queue = set_queue s.queue q [] }, resuming q (s.queue q) l)

  -- The part of `wait_if` under the lock of the queue, for task `i`.
  unfoldable pub suspend_if : ℕ → State tbb M L → QueueId → Bool × M → L → State tbb M L × Pc M L
  suspend_if i s q (true, m) l = (
    record {
      mem = m;
      queue = set_queue s.queue q (s.queue q ++ i ∷ []);
      world = tbb.suspend s.world i;
    },
    parked q l,
  )
  suspend_if i s q (false, m) l =
      (record s { mem = m; world = tbb.resume (tbb.suspend s.world i) i }, at l)

module _ (tbb : Tbb) {M L : Type 0} (prog : Program M L) where
  unfoldable pub exec : Bool → ℕ → State tbb M L → Pc M L → State tbb M L × Pc M L
  unfolding perform suspend_if
  exec luck i s (at l) = perform tbb s (prog.action luck l s.mem)
  exec luck i s (recheck q pred l) = suspend_if tbb i s q (pred s.mem) l
  exec luck i s (parked q l) = (s, if tbb.is_suspended s.world i then parked q l else at l)
  exec luck i s (resuming q [] l) = (s, at l)
  exec luck i s (resuming q (t ∷ ts) l) =
      (record s { world = tbb.resume s.world t }, resuming q ts l)

  unfoldable pub step : Bool → ℕ → System tbb M L → System tbb M L
  unfolding exec
  step luck i s = record {
    state = (exec luck i s.state (s.pc i)).0;
    pc = update s.pc i (exec luck i s.state (s.pc i)).1;
  }

  -- The assertions are about the arguments of a call.
  abbrev pub Permitted : Pc M L → M → Type 0
  Permitted (at l) m = prog.Allowed l m
  Permitted (recheck q pred l) m = Unit {0}
  Permitted (parked q l) m = Unit {0}
  Permitted (resuming q ts l) m = Unit {0}

  -- One step of one of `n` tasks: of its code, or a call that it makes.
  pub data Step (n : ℕ) (s : System tbb M L) : System tbb M L → Type 0 where
    run : (luck : Bool) (i : ℕ) → i < n → Permitted (s.pc i) s.state.mem → Step n s (step luck i s)
    call :
        (i : ℕ) (l l' : L)
        → i < n
        → s.pc i ≡ at l
        → prog.Call l l'
        → Step n s (record s { pc = update s.pc i (at l') })

  abbrev pub initial : M → (ℕ → L) → tbb.World → System tbb M L
  initial m start w = record {
    state = record { mem = m; queue = λ _. []; world = w };
    pc = λ i. at (start i);
  }

  pub data Reach (n : ℕ) (s : System tbb M L) : System tbb M L → Type 0 where
    here : Reach n s s
    next : {t u : System tbb M L} → Reach n s t → Step n t u → Reach n s u
