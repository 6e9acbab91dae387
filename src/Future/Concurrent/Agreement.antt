-- ===== src/Future/Concurrent/Agreement.antt =====
-- What the readers of `shared_state` in include/coopsync_tbb/future.hpp get.
pub mod Invariant
mod Steps
use coopsync_tbb.Base.{
  ℕ, ◌<◌, ◌≡◌, refl, ap, subst, ◌∙◌, Bool, true, false, Option, none, some, [], ◌∷◌, arith,
  total-zero, ◌⊎◌,
}
use coopsync_tbb.Tbb.{Tbb}
use coopsync_tbb.Machine.{
  QueueId, Pc, at, recheck, parked, resuming, State, System, perform, suspend_if, exec, initial,
  Reach,
}
use coopsync_tbb.Machine.Accounts.{initial-Accounts, Reach-Accounts}
use coopsync_tbb.Machine.Waits.{PcWaits, Reach-PcWaits}
use coopsync_tbb.Machine.Gate
use coopsync_tbb.Machine.Induction.{Reach-ind}
use coopsync_tbb.Future.{
  promise_already_satisfied, Exn, Status, empty, value, exception, broken, transition, is_empty,
  ready, Got, suspended, got, threw, undefined, read_outcome,
}
use coopsync_tbb.Future.Concurrent.{
  Cell, new_cell, Loc, outside, set_value, emplace, publish_value, set_exception, keep,
  publish_exception, break, wake, refused, wait, look, fetch, finished, try_exchange, action,
  shared_state,
}
use coopsync_tbb.Future.Concurrent.Ready.{is_ready, is_past}
use Invariant.{writer_transition, is_some, writing, result, PcKnows, Inv}
use Steps.{Holds, gated, runs, calls}

-- A value or an exception, and nothing that the code only asserts away.
abbrev pub is_defined : {V E : Type 0} → Got V E → Bool
is_defined (got v) = true
is_defined (threw e) = true
is_defined suspended = false
is_defined undefined = false

ready_full : (st : Status) → ready st ≡ true → is_empty st ≡ false
ready_full value h = refl
ready_full exception h = refl
ready_full broken h = refl
ready_full empty h = absurd (ground arith)
ready_full transition h = absurd (ground arith)

module _ {V E : Type 0} (construct : V → E ⊎ V) (tbb : Tbb) (n : ℕ) where
  start-Inv : Inv tbb n (new_cell {V = V} {E = E}) (λ _. at outside)
  start-Inv = record {
    one_writer = total-zero n (λ _. 0) (λ j lt. refl);
    stored = (ground arith, ground arith);
    knows = λ j lt. tt;
  }

  -- What a task gets for a state that is ready is a value or an exception.
  defined :
      (st : Status) (v : Option V) (x : Option (Exn E))
      → ready st ≡ true
      → (st ≡ value → is_some v ≡ true)
      → (st ≡ exception → is_some x ≡ true)
      → is_defined (read_outcome st v x) ≡ true
  defined value none x h a b = a refl
  defined value (some y) x h a b = refl
  defined exception v none h a b = b refl
  defined exception v (some y) h a b = refl
  defined broken v x h a b = refl
  defined empty v x h a b = absurd (ground arith)
  defined transition v x h a b = absurd (ground arith)

  -- A step from a state that is ready changes neither the status nor what is stored.
  exchange-settled :
      (s : State tbb (Cell V E) (Loc V E)) (desired : Status) (success failure : Loc V E)
      → ready s.mem.status ≡ true
      → (perform tbb s (try_exchange s.mem desired success failure)).0.mem ≡ s.mem
  unfolding perform
  exchange-settled s desired success failure h = rw (ready_full s.mem.status h) refl

  -- No task writes to a state that is ready.
  unwritten :
      (i : ℕ) (s : State tbb (Cell V E) (Loc V E)) (pc : ℕ → Pc (Cell V E) (Loc V E)) (l : Loc V E)
      (m : Cell V E)
      → i < n
      → pc i ≡ at l
      → writing l ≡ 1
      → Inv tbb n s.mem pc
      → ready s.mem.status ≡ true
      → m ≡ s.mem
  unwritten i s pc l m lt e w v h =
      let was : s.mem.status ≡ transition = writer_transition tbb n s.mem pc i lt (rw e w) v in
      absurd (ground arith)

  perform-settled :
      (luck : Bool) (i : ℕ) (s : State tbb (Cell V E) (Loc V E)) (pc : ℕ → Pc (Cell V E) (Loc V E))
      (l : Loc V E)
      → i < n
      → pc i ≡ at l
      → Inv tbb n s.mem pc
      → ready s.mem.status ≡ true
      → (perform tbb s (action construct luck l s.mem)).0.mem ≡ s.mem
  unfolding perform action
  perform-settled luck i s pc outside lt e v h = refl
  perform-settled luck i s pc (set_value x) lt e v h =
      exchange-settled s transition (emplace x) (refused promise_already_satisfied) h
  perform-settled luck i s pc (emplace x) lt e v h = unwritten i s pc (emplace x) _ lt e refl v h
  perform-settled luck i s pc publish_value lt e v h =
      unwritten i s pc publish_value _ lt e refl v h
  perform-settled luck i s pc (set_exception x) lt e v h =
      exchange-settled s transition (keep x) (refused promise_already_satisfied) h
  perform-settled luck i s pc (keep x) lt e v h = unwritten i s pc (keep x) _ lt e refl v h
  perform-settled luck i s pc publish_exception lt e v h =
      unwritten i s pc publish_exception _ lt e refl v h
  perform-settled luck i s pc break lt e v h = exchange-settled s broken wake outside h
  perform-settled luck i s pc wake lt e v h = refl
  perform-settled luck i s pc (refused x) lt e v h = refl
  perform-settled luck i s pc wait lt e v h = refl
  perform-settled luck i s pc look lt e v h = refl
  perform-settled luck i s pc (fetch st) lt e v h = refl
  perform-settled luck i s pc (finished g) lt e v h = refl

  suspend_if-settled :
      (i : ℕ) (s : State tbb (Cell V E) (Loc V E)) (q : QueueId) (r : Bool × Cell V E) (l : Loc V E)
      → r.1 ≡ s.mem
      → (suspend_if tbb i s q r l).0.mem ≡ s.mem
  unfolding suspend_if
  suspend_if-settled i s q (true, m) l e = e
  suspend_if-settled i s q (false, m) l e = e

  exec-settled :
      (luck : Bool) (i : ℕ) (s : State tbb (Cell V E) (Loc V E)) (pc : ℕ → Pc (Cell V E) (Loc V E))
      (p : Pc (Cell V E) (Loc V E))
      → i < n
      → pc i ≡ p
      → PcWaits
          (Gate.WaitsClosed is_ready is_past)
          (Gate.Anywhere (is_ready {V = V} {E = E}) is_past)
          p
      → Inv tbb n s.mem pc
      → ready s.mem.status ≡ true
      → (exec tbb (shared_state construct) luck i s p).0.mem ≡ s.mem
  unfolding exec
  exec-settled luck i s pc (at l) lt e w v h = perform-settled luck i s pc l lt e v h
  exec-settled luck i s pc (recheck q pred l) lt e w v h =
      suspend_if-settled i s q (pred s.mem) l (ap (λ r. r.1) (w.0 s.mem))
  exec-settled luck i s pc (parked q l) lt e w v h = refl
  exec-settled luck i s pc (resuming q [] l) lt e w v h = refl
  exec-settled luck i s pc (resuming q (t ∷ ts) l) lt e w v h = refl

  abbrev Settled :
      Cell V E → State tbb (Cell V E) (Loc V E) → (ℕ → Pc (Cell V E) (Loc V E)) → Type 0
  Settled m s pc = Holds construct tbb n s pc × (s.mem ≡ m)

  module _ {w : tbb.World} {s : System tbb (Cell V E) (Loc V E)}
      (quiet : (t : ℕ) → tbb.is_suspended w t ≡ false)
      (r : Reach tbb
        (shared_state construct)
        n
        (initial tbb (shared_state construct) new_cell (λ _. outside) w)
        s) where
    holds : Holds construct tbb n s.state s.pc
    holds =
        Reach-ind tbb (shared_state construct) n (Gate.WaitsClosed is_ready is_past)
          (Gate.Anywhere (is_ready {V = V} {E = E}) is_past) (gated construct tbb n).waits
          (Holds construct tbb n) (runs construct tbb n) (calls construct tbb n)
          (initial-Accounts tbb (shared_state construct) n new_cell (λ _. outside) w quiet)
          (λ j. tt) (λ j g. absurd (ground arith), start-Inv) r

    -- A task whose `get` of a `shared_future` has finished got what the shared state holds, which is a value or an
    -- exception.
    pub get_result :
        (i : ℕ) (g : Got V E)
        → i < n
        → s.pc i ≡ at (finished g)
        → (g ≡ result s.state.mem) × (is_defined g ≡ true)
    get_result i g lt e =
        let v = holds.1 in
        let (same, done) = subst (PcKnows s.state.mem) e (v.knows i lt) in
        let m = s.state.mem in
        let ok : is_defined (result m) ≡ true =
          defined m.status m.stored m.error done v.stored.0 v.stored.1 in
        (same, rw same ok)

    -- Once the shared state is ready, no step changes its status, its value or its exception, as long
    -- as it is read through `shared_future` only.
    pub settled_stable :
        {t : System tbb (Cell V E) (Loc V E)}
        → Reach tbb (shared_state construct) n s t
        → ready s.state.mem.status ≡ true
        → t.state.mem ≡ s.state.mem
    settled_stable {t} r' h =
        let prog = shared_state construct in
        let Closed = Gate.WaitsClosed is_ready is_past in
        let Lands = Gate.Anywhere (is_ready {V = V} {E = E}) is_past in
        let g = gated construct tbb n in
        (Reach-ind tbb prog n Closed Lands g.waits (Settled s.state.mem)
          (λ luck i s1 pc p acc lt e a w ws (hold, same). (
            runs construct tbb n luck i s1 pc p acc lt e a w ws hold,
            exec-settled luck i s1 pc p lt e w hold.1 (rw same h) ∙ same,
          ))
          (λ i l l' s1 pc acc lt e c (hold, same).
            (calls construct tbb n i l l' s1 pc acc lt e c hold, same))
          (Reach-Accounts tbb prog n (initial-Accounts tbb prog n new_cell (λ _. outside) w quiet)
            r)
          (Reach-PcWaits Closed Lands tbb prog g.waits (λ j. tt) r) (holds, refl) r').1
