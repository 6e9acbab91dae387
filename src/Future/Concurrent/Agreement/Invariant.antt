-- ===== src/Future/Concurrent/Agreement/Invariant.antt =====
-- The one writer of `shared_state` in include/coopsync_tbb/future.hpp: the invariant and the accesses.
use coopsync_tbb.Base.{
  ℕ, ◌<◌, ◌≤◌, ◌≡◌, inl, inr, refl, Bool-cases, Bool, true, false, Option, none, some, arith, ◌==◌,
  update, total, total-update, le-total, add-le-total, ◌⊎◌,
}
use coopsync_tbb.Tbb.{Tbb}
use coopsync_tbb.Machine.{Action, access, Pc, at, recheck, parked, resuming, State, perform}
use coopsync_tbb.Future.{
  user, Status, empty, value, exception, broken, transition, is_empty, ready, Got, read_outcome,
}
use coopsync_tbb.Future.Concurrent.{
  Cell, Loc, outside, set_value, emplace, publish_value, set_exception, keep, publish_exception,
  break, wake, refused, wait, look, fetch, finished, try_exchange, try_emplace,
}

-- Between the exchange of the status and its store.
abbrev pub writing : {V E : Type 0} → Loc V E → ℕ
writing (emplace v) = 1
writing publish_value = 1
writing (keep e) = 1
writing publish_exception = 1
writing _ = 0

abbrev pub is_transition : Status → ℕ
is_transition transition = 1
is_transition _ = 0

abbrev pub is_some : {A : Type 0} → Option A → Bool
is_some none = false
is_some (some x) = true

transition_of : (st : Status) → 1 ≤ is_transition st → st ≡ transition
transition_of transition h = refl
transition_of empty h = absurd (omega arith)
transition_of value h = absurd (omega arith)
transition_of exception h = absurd (omega arith)
transition_of broken h = absurd (omega arith)

empty_of : (st : Status) → is_empty st ≡ true → st ≡ empty
empty_of empty h = refl
empty_of value h = absurd (ground arith)
empty_of exception h = absurd (ground arith)
empty_of broken h = absurd (ground arith)
empty_of transition h = absurd (ground arith)

module _ {V E : Type 0} where
  abbrev pub result : Cell V E → Got V E
  result m = read_outcome m.status m.stored m.error

  -- What a task knows of the shared state at its location.
  abbrev pub Knows : Cell V E → Loc V E → Type 0
  Knows m publish_value = is_some m.stored ≡ true
  Knows m publish_exception = is_some m.error ≡ true
  Knows m (fetch st) = (st ≡ m.status) × (ready m.status ≡ true)
  Knows m (finished g) = (g ≡ result m) × (ready m.status ≡ true)
  Knows m _ = Unit {0}

  -- The payload is there if the status says so.
  abbrev Stored : Cell V E → Type 0
  Stored m =
      (m.status ≡ value → is_some m.stored ≡ true) × (m.status ≡ exception → is_some m.error ≡ true)

  abbrev pub PcKnows : Cell V E → Pc (Cell V E) (Loc V E) → Type 0
  PcKnows m (at l) = Knows m l
  PcKnows m (recheck q pred l) = l ≡ look
  PcKnows m (parked q l) = l ≡ look
  PcKnows m (resuming q ts l) = l ≡ outside

  abbrev pub pc_writes : Pc (Cell V E) (Loc V E) → ℕ
  pc_writes (at l) = writing l
  pc_writes _ = 0

  -- A write while the state is not ready leaves what a task knows that does not write.
  Knows-stable :
      (m m' : Cell V E) (p : Pc (Cell V E) (Loc V E))
      → ready m.status ≡ false
      → pc_writes p ≡ 0
      → PcKnows m p
      → PcKnows m' p
  Knows-stable m m' (at outside) shut idle k = tt
  Knows-stable m m' (at (set_value v)) shut idle k = tt
  Knows-stable m m' (at (emplace v)) shut idle k = tt
  Knows-stable m m' (at publish_value) shut idle k = absurd (ground arith)
  Knows-stable m m' (at (set_exception e)) shut idle k = tt
  Knows-stable m m' (at (keep e)) shut idle k = tt
  Knows-stable m m' (at publish_exception) shut idle k = absurd (ground arith)
  Knows-stable m m' (at break) shut idle k = tt
  Knows-stable m m' (at wake) shut idle k = tt
  Knows-stable m m' (at (refused e)) shut idle k = tt
  Knows-stable m m' (at wait) shut idle k = tt
  Knows-stable m m' (at look) shut idle k = tt
  Knows-stable m m' (at (fetch st)) shut idle k = absurd (ground arith)
  Knows-stable m m' (at (finished g)) shut idle k = absurd (ground arith)
  Knows-stable m m' (recheck q pred l) shut idle k = k
  Knows-stable m m' (parked q l) shut idle k = k
  Knows-stable m m' (resuming q ts l) shut idle k = k

  module _ (tbb : Tbb) (n : ℕ) where
    abbrev pub writers : (ℕ → Pc (Cell V E) (Loc V E)) → ℕ
    writers pc = total n (λ j. pc_writes (pc j))

    pub record Inv (m : Cell V E) (pc : ℕ → Pc (Cell V E) (Loc V E)) : Type 0 where
      pub one_writer : writers pc ≡ is_transition m.status
      pub stored : Stored m
      pub knows : (j : ℕ) → j < n → PcKnows m (pc j)

    -- Task `i` moves and writes nothing.
    pub Inv-move :
        (m : Cell V E) (pc : ℕ → Pc (Cell V E) (Loc V E)) (i : ℕ) (p' : Pc (Cell V E) (Loc V E))
        → i < n
        → pc_writes p' ≡ pc_writes (pc i)
        → PcKnows m p'
        → Inv m pc
        → Inv m (update pc i p')
    Inv-move m pc i p' lt same k v = record {
      one_writer = omega (arith, total-update n pc_writes pc i p' lt, v.one_writer);
      stored = v.stored;
      knows = λ j ltj. elim (Bool-cases (i == j)) [
        | inl here' ↦ rw here' k
        | inr other ↦ rw other (v.knows j ltj)
      ];
    }

    -- Task `i` writes, and no other one does.
    Inv-write :
        (m m' : Cell V E) (pc : ℕ → Pc (Cell V E) (Loc V E)) (i : ℕ) (p' : Pc (Cell V E) (Loc V E))
        → i < n
        → ready m.status ≡ false
        → is_transition m.status ≡ pc_writes (pc i)
        → pc_writes p' ≡ is_transition m'.status
        → Stored m'
        → PcKnows m' p'
        → Inv m pc
        → Inv m' (update pc i p')
    Inv-write m m' pc i p' lt shut mine next' st k v = record {
      one_writer = omega (arith, total-update n pc_writes pc i p' lt, v.one_writer);
      stored = st;
      knows = λ j ltj. elim (Bool-cases (i == j)) [
        | inl here' ↦ rw here' k
        | inr other ↦
            let f : ℕ → ℕ = λ k. pc_writes (pc k) in
            let two = add-le-total n f i j lt ltj (λ e. ground arith) in
            let idle : pc_writes (pc j) ≡ 0 = omega (arith, v.one_writer) in
            rw other (Knows-stable m m' (pc j) shut idle (v.knows j ltj))
      ];
    }

    pub writer_transition :
        (m : Cell V E) (pc : ℕ → Pc (Cell V E) (Loc V E)) (i : ℕ)
        → i < n
        → pc_writes (pc i) ≡ 1
        → Inv m pc
        → m.status ≡ transition
    writer_transition m pc i lt h v =
        transition_of m.status
          (omega (arith, v.one_writer, le-total n (λ j. pc_writes (pc j)) i lt))

    module _ (i : ℕ) (s : State tbb (Cell V E) (Loc V E)) (pc : ℕ → Pc (Cell V E) (Loc V E))
        (l : Loc V E) (lt : i < n) (e : pc i ≡ at l) (v : Inv s.mem pc) where
      abbrev pub After : Action (Cell V E) (Loc V E) → Type 0
      After a = Inv (perform tbb s a).0.mem (update pc i (perform tbb s a).1)

      pub exchange-Inv :
          (desired : Status) (success failure : Loc V E)
          → writing l ≡ 0
          → writing success ≡ is_transition desired
          → (desired ≡ transition) ⊎ (desired ≡ broken)
          → writing failure ≡ 0
          → ((m : Cell V E) → Knows m success)
          → ((m : Cell V E) → Knows m failure)
          → After (try_exchange s.mem desired success failure)
      unfolding perform
      exchange-Inv desired success failure idle ws st wf ks kf =
          elim (Bool-cases (is_empty s.mem.status)) [
            | inl free ↦
                let was : s.mem.status ≡ empty = empty_of s.mem.status free in
                rw free (
                  Inv-write s.mem (record s.mem { status = desired }) pc i (at success) lt
                    (rw was refl) (ground arith) ws (ground arith, ground arith)
                    (ks (record s.mem { status = desired })) v)
            | inr full ↦ rw full (Inv-move s.mem pc i (at failure) lt (ground arith) (kf s.mem) v)
          ]

      pub write-Inv :
          (m' : Cell V E) (l' : Loc V E)
          → writing l ≡ 1
          → writing l' ≡ is_transition m'.status
          → (s.mem.status ≡ transition → Stored m')
          → Knows m' l'
          → After (access m' l')
      unfolding perform
      write-Inv m' l' w w' st k =
          let was : s.mem.status ≡ transition = writer_transition s.mem pc i lt (ground arith) v in
          Inv-write s.mem m' pc i (at l') lt (rw was refl) (ground arith) w' (st was) k v

      pub mine : writing l ≡ 1 → 1 ≡ is_transition s.mem.status
      mine w =
          let was : s.mem.status ≡ transition = writer_transition s.mem pc i lt (ground arith) v in
          rw was refl

      pub emplace-Inv : (r : E ⊎ V) → writing l ≡ 1 → After (try_emplace s.mem r)
      emplace-Inv (inl x) w =
          write-Inv s.mem (keep (user x)) w (mine w) (λ was. (ground arith, ground arith)) tt
      emplace-Inv (inr x) w =
          write-Inv (record s.mem { stored = some x }) publish_value w (mine w)
            (λ was. (ground arith, ground arith)) refl
