-- ===== src/IntrusiveList/RoundTrip.antt =====
-- What is put into the intrusive list of include/coopsync_tbb/detail/intrusive_list.hpp comes out of
-- it in the same order.
use coopsync_tbb.Base.{
  ℕ, zero, suc, ◌+◌, ◌<◌, ◌≤◌, ◌≡◌, ◌≢◌, refl, List, [], ◌∷◌, ◌++◌, arith, count, count-append,
  length, append_assoc, append-nil, ap₂, ◌∙◌,
}
use coopsync_tbb.IntrusiveList.{Ptr, null, Next, IntrusiveList, empty_list, push_back, pop_front}
use coopsync_tbb.IntrusiveList.Chain.{IsList}
use coopsync_tbb.IntrusiveList.Laws.{IsList-empty, IsFresh, push_back-IsList, pop_front-cons}

abbrev pub push_each : Next → IntrusiveList → List Ptr → Next × IntrusiveList
push_each h l [] = (h, l)
push_each h l (x ∷ xs) = let (h', l') = push_back h l x in push_each h' l' xs

-- The nodes that come out, and the list that is left.
abbrev pub pop_each : ℕ → Next → IntrusiveList → List Ptr × Next × IntrusiveList
pop_each zero h l = ([], h, l)
pop_each (suc n) h l =
    let (x, h', l') = pop_front h l in let (xs, h'', l'') = pop_each n h' l' in (x ∷ xs, h'', l'')

-- All nodes are pushed on an empty list, and as many popped.
abbrev pub push_and_pop : Next → List Ptr → List Ptr × Next × IntrusiveList
push_and_pop h xs = let (h', l) = push_each h empty_list xs in pop_each (length xs) h' l

-- Different nodes that are in no list.
pub record AreFresh (h : Next) (xs : List Ptr) : Type 0 where
  pub ne_null : (x : Ptr) → 0 < count x xs → x ≢ null
  pub no_next : (x : Ptr) → 0 < count x xs → h x ≡ null
  pub once : (x : Ptr) → count x xs ≤ 1

push_each-IsList :
    (h : Next) (l : IntrusiveList) (ys xs : List Ptr)
    → IsList h l ys
    → AreFresh h xs
    → ((x : Ptr) → count x ys + count x xs ≤ 1)
    → IsList (push_each h l xs).0 (push_each h l xs).1 (ys ++ xs)
push_each-IsList h l ys [] is f apart = rw append-nil is
push_each-IsList h l ys (x ∷ xs) is f apart =
    let fresh : IsFresh h ys x = record {
      ne_null = f.ne_null x (ground arith);
      no_next = f.no_next x (ground arith);
      outside = ground (arith, apart x);
    } in
    let pushed = push_back-IsList h l ys x is fresh in
    let f' : AreFresh (push_back h l x).0 xs = record {
      ne_null = λ y m. f.ne_null y (ground arith);
      no_next = λ y m. pushed.1 y (ground (arith, apart y)) ∙ f.no_next y (ground arith);
      once = λ y. ground (arith, f.once y);
    } in
    rw (append_assoc ys (x ∷ []) xs) at (
      push_each-IsList (push_back h l x).0 (push_back h l x).1 (ys ++ x ∷ []) xs pushed.0 f'
        (λ y. ground (arith, apart y, count-append y ys (x ∷ []))))

pop_each-IsList :
    (h : Next) (l : IntrusiveList) (xs : List Ptr)
    → IsList h l xs
    → ((pop_each (length xs) h l).0 ≡ xs)
      × IsList (pop_each (length xs) h l).1 (pop_each (length xs) h l).2 []
pop_each-IsList h l [] is = (refl, is)
pop_each-IsList h l (x ∷ xs) is =
    let popped = pop_front-cons h l x xs is in
    let rest = pop_each-IsList (pop_front h l).1 (pop_front h l).2 xs popped.2 in
    (ap₂ (λ y ys. y ∷ ys) popped.0 rest.0, rest.1)

-- Different fresh nodes that are pushed on an empty list are popped in the same order, and leave an
-- empty list.
pub push_pop :
    (h : Next) (xs : List Ptr)
    → AreFresh h xs
    → ((push_and_pop h xs).0 ≡ xs) × IsList (push_and_pop h xs).1 (push_and_pop h xs).2 []
push_pop h xs f =
    pop_each-IsList (push_each h empty_list xs).0 (push_each h empty_list xs).1 xs
      (push_each-IsList h empty_list [] xs (IsList-empty h) f (λ x. omega (arith, f.once x)))
