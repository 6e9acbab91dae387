-- ===== src/WaitFor/Streams/Invariant.antt =====
-- The invariant of a task that waits for several streams, by the functions of
-- include/coopsync_tbb/cuda/wait_for.hpp and hip/wait_for.hpp.
use coopsync_tbb.Base.{
  ℕ, zero, suc, ◌+◌, ◌<◌, ◌≤◌, ◌≡◌, inl, inr, refl, sym, subst, ◌∙◌, Bool-cases, true, false,
  Option, none, some, List, if◌then◌else◌, ◌==◌, update, arith, total, total-update, total-zero,
  le-total, dec_lt,
}
use coopsync_tbb.WaitFor.{Callbacks, outcome}
use coopsync_tbb.WaitFor.Streams.{
  Loop, check, failing, left, Item, unregistered, queued, called, written, last, over, Wait, listed,
  start,
}

-- The items that have not been counted down.
abbrev pub outstanding : {Err : Type 0} → Item Err → ℕ
outstanding last = 0
outstanding over = 0
outstanding _ = 1

abbrev pub is_last : {Err : Type 0} → Item Err → ℕ
is_last last = 1
is_last _ = 0

abbrev pub is_new : {Err : Type 0} → Item Err → ℕ
is_new unregistered = 1
is_new _ = 0

abbrev pub unset : {A : Type 0} → Option A → ℕ
unset none = 1
unset (some a) = 0

-- The items that the loop has passed over or works on.
abbrev pub frontier : ℕ → Loop → ℕ
frontier n (check i) = i
frontier n (failing i) = suc i
frontier n left = n

total-const : (n : ℕ) → total n (λ _. 1) ≡ n
total-const zero = refl
total-const (suc n) = omega (arith, total-const n)

pub over_of : {Err : Type 0} (x : Item Err) → outstanding x ≡ 0 → is_last x ≡ 0 → x ≡ over
over_of over a b = refl
over_of last a b = absurd (ground arith)
over_of unregistered a b = absurd (ground arith)
over_of queued a b = absurd (ground arith)
over_of (called e) a b = absurd (ground arith)
over_of written a b = absurd (ground arith)

module _ {Err : Type 0} (cb : Callbacks Err) (n : ℕ) where
  -- What holds of an item and its slot for the error code.
  abbrev pub Right : ℕ → Err → Item Err → Type 0
  Right i e (called c) = c ≡ outcome cb i
  Right i e queued = cb.is_success (cb.registration i) ≡ true
  Right i e unregistered = Unit {0}
  Right i e written = e ≡ outcome cb i
  Right i e last = e ≡ outcome cb i
  Right i e over = e ≡ outcome cb i

  pub record Inv (s : Wait Err) : Type 0 where
    pub counted : s.pending ≡ total n (λ i. outstanding (s.item i))
    pub resumed :
        s.resumes + total n (λ i. is_last (s.item i)) + (if s.pending == 0 then 0 else 1) ≡ 1
    pub right : (i : ℕ) → Right i (s.errs i) (s.item i)
    pub within : frontier n s.loop ≤ n
    pub ahead : (i : ℕ) → frontier n s.loop ≤ i → s.item i ≡ unregistered
    pub behind : (i : ℕ) → i < frontier n s.loop → is_new (s.item i) ≡ 0
    pub answer :
        (r : List Err) → s.returned ≡ some r → (r ≡ listed n (outcome cb)) × (s.resumes ≡ 1)

  pub start-Inv : 0 < n → Inv (start cb n)
  unfolding start
  start-Inv pos = record {
    counted = sym (total-const n);
    resumed = ground (arith, total-zero n (λ i. 0) (λ j lt. refl));
    right = λ i. tt;
    within = ground arith;
    ahead = λ i le. refl;
    behind = ground arith;
    answer = λ r h. absurd (ground arith);
  }

  -- An item moves.
  pub Inv-item :
      (s : Wait Err) (i : ℕ) (l : Loop) (p : ℕ) (e : ℕ → Err) (m : ℕ) (x : Item Err)
      → i < n
      → p + outstanding (s.item i) ≡ s.pending + outstanding x
      → m + is_last x + (if p == 0 then 0 else 1)
        ≡ s.resumes + is_last (s.item i) + (if s.pending == 0 then 0 else 1)
      → Right i (e i) x
      → ((j : ℕ) → (i == j) ≡ false → e j ≡ s.errs j)
      → frontier n s.loop ≤ frontier n l
      → frontier n l ≤ n
      → ((j : ℕ) → j < frontier n l → frontier n s.loop ≤ j → j ≡ i)
      → i < frontier n l
      → is_new x ≡ 0
      → s.resumes ≤ m
      → Inv s
      → Inv (record s { loop = l; item = update s.item i x; pending = p; errs = e; resumes = m })
  Inv-item s i l p e m x lt same res r others mono bound fresh reach reg more v =
      let lasts = total-update n (is_last {Err = Err}) s.item i x lt in
      let resumed' : m + total n (λ j. is_last (update s.item i x j)) + (if p == 0 then 0 else 1)
          ≡ 1 =
        omega (arith, lasts, v.resumed) in
      record {
        counted = omega (arith, total-update n (outstanding {Err = Err}) s.item i x lt, v.counted);
        resumed = resumed';
        right = λ j. elim (Bool-cases (i == j)) [
          | inl here ↦
              let at' : i ≡ j = ground arith in rw here (subst (λ k. Right k (e k) x) at' r)
          | inr other ↦ rw (other, others j other) (v.right j)
        ];
        within = bound;
        ahead = λ j le. ground (arith, v.ahead j);
        behind = λ j lt'. elim (Bool-cases (i == j)) [
          | inl here ↦ rw here reg
          | inr other ↦ rw other (ground (arith, v.behind j, fresh j))
        ];
        answer = λ q h. ((v.answer q h).0, ground (arith, v.answer q h));
      }

  -- An item that is registered is one of the first `n`, and the loop has reached it.
  pub reached :
      (s : Wait Err) (i : ℕ) (x : Item Err)
      → s.item i ≡ x
      → is_new x ≡ 0
      → Inv s
      → i < frontier n s.loop
  reached s i x e reg v = elim (dec_lt i (frontier n s.loop)) [
    | yes lt ↦ lt
    | no out ↦
        let none' : x ≡ unregistered = sym e ∙ v.ahead i (omega arith) in absurd (ground arith)
  ]

  -- An item that the loop has reached moves, and the loop stays.
  pub Inv-moves :
      (s : Wait Err) (i p : ℕ) (e : ℕ → Err) (m : ℕ) (y x : Item Err)
      → s.item i ≡ y
      → is_new y ≡ 0
      → p + outstanding y ≡ s.pending + outstanding x
      → m + is_last x + (if p == 0 then 0 else 1)
        ≡ s.resumes + is_last y + (if s.pending == 0 then 0 else 1)
      → Right i (e i) x
      → ((j : ℕ) → (i == j) ≡ false → e j ≡ s.errs j)
      → is_new x ≡ 0
      → s.resumes ≤ m
      → Inv s
      → Inv (record s { item = update s.item i x; pending = p; errs = e; resumes = m })
  Inv-moves s i p e m y x at' old same res r others reg more v =
      let lt = reached s i y at' old v in
      Inv-item s i s.loop p e m x (omega (arith, v.within)) (rw at' same) (rw at' res) r others
        (omega arith) v.within (λ j a b. absurd (omega arith)) lt reg more v

  -- An item that is about to count down finds something to count.
  pub not_counted : (s : Wait Err) (i : ℕ) → s.item i ≡ written → Inv s → 0 < s.pending
  not_counted s i e v =
      let out : ℕ → ℕ = λ j. outstanding (s.item j) in
      let self : out i ≡ 1 = rw e refl in
      let lt = reached s i written e refl v in
      omega (arith, le-total n out i (omega (arith, v.within)), v.counted)

  -- The loop goes on, and no item moves.
  pub Inv-loop :
      (s : Wait Err) (l : Loop)
      → frontier n l ≡ frontier n s.loop
      → Inv s
      → Inv (record s { loop = l })
  Inv-loop s l same v = record {
    counted = v.counted;
    resumed = v.resumed;
    right = v.right;
    within = rw same v.within;
    ahead = rw same v.ahead;
    behind = rw same v.behind;
    answer = v.answer;
  }

  -- Once the task is resumed, every item is over.
  pub all_over : (s : Wait Err) (i : ℕ) → 0 < s.resumes → i < n → Inv s → s.item i ≡ over
  all_over s i res lt v =
      let lasts : ℕ → ℕ = λ j. is_last (s.item j) in
      let out : ℕ → ℕ = λ j. outstanding (s.item j) in
      let a = le-total n lasts i lt in
      let b = le-total n out i lt in
      over_of (s.item i) (ground (arith, v.resumed)) (ground (arith, v.resumed, v.counted))
