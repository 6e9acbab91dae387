-- ===== src/Future/Concurrent/Agreement/Steps.antt =====
-- Every step of `shared_state` in include/coopsync_tbb/future.hpp keeps the invariant of its one writer.
use coopsync_tbb.Base.{
  ℕ, ◌<◌, ◌≡◌, inl, inr, refl, ap, subst, Bool-cases, Bool, true, false, some, [], ◌∷◌, arith,
  update, ◌⊎◌,
}
use coopsync_tbb.Tbb.{Tbb}
use coopsync_tbb.Machine.{
  QueueId, primary, Pc, at, recheck, parked, resuming, State, perform, suspend_if, exec,
}
use coopsync_tbb.Machine.Waits.{PcWaits}
use coopsync_tbb.Machine.Gate
use coopsync_tbb.Machine.Induction.{RunKeeps, CallKeeps}
use coopsync_tbb.Future.{value, exception, broken, transition, ready, read_outcome}
use coopsync_tbb.Future.Concurrent.{
  Cell, Loc, outside, set_value, emplace, publish_value, set_exception, keep, publish_exception,
  break, wake, refused, wait, look, fetch, finished, action, Call, calls_set_value,
  calls_set_exception, calls_break, calls_get, catches, returns, shared_state,
}
use coopsync_tbb.Future.Concurrent.Ready.{is_ready, is_past, shared_state-Gated}
use coopsync_tbb.Future.Concurrent.Agreement.Invariant.{
  Knows, PcKnows, pc_writes, Inv, Inv-move, After, mine, exchange-Inv, write-Inv, emplace-Inv,
}

module _ {V E : Type 0} (construct : V → E ⊎ V) (tbb : Tbb) (n : ℕ) where
  abbrev pub Holds : State tbb (Cell V E) (Loc V E) → (ℕ → Pc (Cell V E) (Loc V E)) → Type 0
  Holds s pc = Gate.Seen is_ready is_past tbb (shared_state construct) n s pc × Inv tbb n s.mem pc

  perform-Inv :
      (luck : Bool) (i : ℕ) (s : State tbb (Cell V E) (Loc V E)) (pc : ℕ → Pc (Cell V E) (Loc V E))
      (l : Loc V E) (lt : i < n) (e : pc i ≡ at l)
      → Gate.Seen is_ready is_past tbb (shared_state construct) n s pc
      → (v : Inv tbb n s.mem pc) → PcKnows s.mem (at l)
      → After tbb n i s pc l lt e v (action construct luck l s.mem)
  unfolding perform action
  perform-Inv luck i s pc outside lt e seen v k =
      Inv-move tbb n s.mem pc i (at outside) lt (ground arith) tt v
  perform-Inv luck i s pc (set_value x) lt e seen v k =
      exchange-Inv tbb n i s pc (set_value x) lt e v transition (emplace x) _ refl refl (inl refl)
        refl (λ m. tt) (λ m. tt)
  perform-Inv luck i s pc (emplace x) lt e seen v k =
      emplace-Inv tbb n i s pc (emplace x) lt e v (construct x) refl
  perform-Inv luck i s pc publish_value lt e seen v k =
      write-Inv tbb n i s pc publish_value lt e v (record s.mem { status = value }) wake refl refl
        (λ was. (λ h. k, ground arith)) tt
  perform-Inv luck i s pc (set_exception x) lt e seen v k =
      exchange-Inv tbb n i s pc (set_exception x) lt e v transition (keep x) _ refl refl (inl refl)
        refl (λ m. tt) (λ m. tt)
  perform-Inv luck i s pc (keep x) lt e seen v k =
      write-Inv tbb n i s pc (keep x) lt e v (record s.mem { error = some x }) publish_exception
        refl (mine tbb n i s pc (keep x) lt e v refl) (λ was. (ground arith, ground arith)) refl
  perform-Inv luck i s pc publish_exception lt e seen v k =
      write-Inv tbb n i s pc publish_exception lt e v (record s.mem { status = exception }) wake
        refl refl (λ was. (ground arith, λ h. k)) tt
  perform-Inv luck i s pc break lt e seen v k =
      exchange-Inv tbb n i s pc break lt e v broken wake outside refl refl (inr refl) refl (λ m. tt)
        (λ m. tt)
  perform-Inv luck i s pc wake lt e seen v k =
      Inv-move tbb n s.mem pc i (resuming primary (s.queue primary) outside) lt (ground arith) refl
        v
  perform-Inv luck i s pc (refused x) lt e seen v k =
      Inv-move tbb n s.mem pc i (at (refused x)) lt (ground arith) tt v
  perform-Inv luck i s pc wait lt e seen v k = elim (Bool-cases (ready s.mem.status)) [
    | inl r ↦ rw r (Inv-move tbb n s.mem pc i (at look) lt (ground arith) tt v)
    | inr r ↦ rw r (Inv-move tbb n s.mem pc i (recheck primary _ look) lt (ground arith) refl v)
  ]
  perform-Inv luck i s pc look lt e seen v k =
      Inv-move tbb n s.mem pc i (at (fetch s.mem.status)) lt (ground arith)
        (refl, ground (arith, seen i)) v
  perform-Inv luck i s pc (fetch st) lt e seen v k =
      Inv-move tbb n s.mem pc i (at (finished (read_outcome st s.mem.stored s.mem.error))) lt
        (ground arith) (ap (λ st'. read_outcome st' s.mem.stored s.mem.error) k.0, k.1) v
  perform-Inv luck i s pc (finished g) lt e seen v k =
      Inv-move tbb n s.mem pc i (at (finished g)) lt (ground arith) k v

  suspend_if-Inv :
      (i : ℕ) (s : State tbb (Cell V E) (Loc V E)) (pc : ℕ → Pc (Cell V E) (Loc V E)) (q : QueueId)
      (l : Loc V E) (r : Bool × Cell V E)
      → i < n
      → pc_writes (pc i) ≡ 0
      → r.1 ≡ s.mem
      → l ≡ look
      → Inv tbb n s.mem pc
      → Inv tbb n (suspend_if tbb i s q r l).0.mem (update pc i (suspend_if tbb i s q r l).1)
  unfolding suspend_if
  suspend_if-Inv i s pc q l (true, m) lt w same k v =
      rw same (Inv-move tbb n s.mem pc i (parked q l) lt (ground arith) k v)
  suspend_if-Inv i s pc q l (false, m) lt w same k v =
      rw (same, k) (Inv-move tbb n s.mem pc i (at look) lt (ground arith) tt v)

  exec-Inv :
      (luck : Bool) (i : ℕ) (s : State tbb (Cell V E) (Loc V E)) (pc : ℕ → Pc (Cell V E) (Loc V E))
      (p : Pc (Cell V E) (Loc V E))
      → i < n
      → pc i ≡ p
      → PcWaits
          (Gate.WaitsClosed is_ready is_past)
          (Gate.Anywhere (is_ready {V = V} {E = E}) is_past)
          p
      → Gate.Seen is_ready is_past tbb (shared_state construct) n s pc
      → Inv tbb n s.mem pc
      → PcKnows s.mem p
      → Inv tbb n
          (exec tbb (shared_state construct) luck i s p).0.mem
          (update pc i (exec tbb (shared_state construct) luck i s p).1)
  unfolding exec
  exec-Inv luck i s pc (at l) lt e w seen v k = perform-Inv luck i s pc l lt e seen v k
  exec-Inv luck i s pc (recheck q pred l) lt e w seen v k =
      suspend_if-Inv i s pc q l (pred s.mem) lt (ground arith) (ap (λ r. r.1) (w.0 s.mem)) k v
  exec-Inv luck i s pc (parked q l) lt e w seen v k =
      elim (Bool-cases (tbb.is_suspended s.world i)) [
        | inl b ↦ rw b (Inv-move tbb n s.mem pc i (parked q l) lt (ground arith) k v)
        | inr b ↦ rw (b, k) (Inv-move tbb n s.mem pc i (at look) lt (ground arith) tt v)
      ]
  exec-Inv luck i s pc (resuming q [] l) lt e w seen v k =
      rw k (Inv-move tbb n s.mem pc i (at outside) lt (ground arith) tt v)
  exec-Inv luck i s pc (resuming q (t ∷ ts) l) lt e w seen v k =
      Inv-move tbb n s.mem pc i (resuming q ts l) lt (ground arith) k v

  pub gated : Gate.Gated is_ready is_past (shared_state construct)
  gated = shared_state-Gated construct

  pub runs :
      RunKeeps tbb
        (shared_state construct)
        n
        (Gate.WaitsClosed is_ready is_past)
        (Gate.Anywhere (is_ready {V = V} {E = E}) is_past)
        gated.waits
        Holds
  runs luck i s pc p acc lt e a w ws (seen, v) = (
    Gate.runs is_ready is_past tbb (shared_state construct) n gated luck i s pc p acc lt e a w ws
        seen,
    exec-Inv luck i s pc p lt e w seen v (subst (PcKnows s.mem) e (v.knows i lt)),
  )

  called :
      (l l' : Loc V E) (m : Cell V E)
      → Call l l'
      → (pc_writes {V = V} {E = E} (at l') ≡ pc_writes {V = V} {E = E} (at l)) × Knows m l'
  called l l' m (calls_set_value x) = (refl, tt)
  called l l' m (calls_set_exception x) = (refl, tt)
  called l l' m calls_break = (refl, tt)
  called l l' m calls_get = (refl, tt)
  called l l' m (catches x) = (refl, tt)
  called l l' m (returns g) = (refl, tt)

  pub calls :
      CallKeeps tbb
        (shared_state construct)
        n
        (Gate.WaitsClosed is_ready is_past)
        (Gate.Anywhere (is_ready {V = V} {E = E}) is_past)
        gated.waits
        Holds
  calls i l l' s pc acc lt e c (seen, v) = (
    Gate.calls is_ready is_past tbb (shared_state construct) n gated i l l' s pc acc lt e c seen,
    Inv-move tbb n s.mem pc i (at l') lt (let same = (called l l' s.mem c).0 in rw e same)
        (called l l' s.mem c).1 v,
  )
