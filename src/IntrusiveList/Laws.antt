-- ===== src/IntrusiveList/Laws.antt =====
-- The operations of the intrusive list on the sequence that it stands for.
use coopsync_tbb.Base.{
  ◌≡◌, ◌≢◌, refl, true, List, [], ◌∷◌, ◌++◌, arith, ◌==◌, if◌then◌else◌, update, count,
  count-append, sym, false,
}
use coopsync_tbb.IntrusiveList.{
  Ptr, null, Next, IntrusiveList, empty_list, assert_invariants, push_back, pop_front, empty, swap,
  move,
}
use coopsync_tbb.IntrusiveList.Chain.{
  last, IsList, Chain-frame, Chain-snoc, Chain-last, last-mem, last-append,
}

pub IsList-empty : (h : Next) → IsList h empty_list []
IsList-empty h = record { chain = refl; tail = refl; once = λ x. omega arith }

-- The assertions hold of every list.
pub assert_invariants_hold :
    (h : Next) (l : IntrusiveList) (xs : List Ptr) → IsList h l xs → assert_invariants h l ≡ true
unfolding assert_invariants
assert_invariants_hold h l [] is = ground (arith, is.chain, is.tail)
assert_invariants_hold h l (x ∷ xs) is =
    ground (arith, is.chain, is.tail, Chain-last h l.head x xs is.chain)

-- `empty` says whether there is no node.
pub empty-IsList :
    (h : Next) (l : IntrusiveList) (xs : List Ptr)
    → IsList h l xs
    → empty l ≡ (elim xs [ [] ↦ true | _ ∷ _ ↦ false ])
unfolding empty
empty-IsList h l [] is = ground (arith, is.chain)
empty-IsList h l (x ∷ xs) is = ground (arith, is.chain)

-- What `push_back` requires of the node.
pub record IsFresh (h : Next) (xs : List Ptr) (node : Ptr) : Type 0 where
  pub ne_null : node ≢ null
  pub no_next : h node ≡ null
  pub outside : count node xs ≡ 0

-- `push_back` puts a fresh node behind the others, and writes no node outside the list.
pub push_back-IsList :
    (h : Next) (l : IntrusiveList) (xs : List Ptr) (node : Ptr)
    → IsList h l xs
    → IsFresh h xs node
    → IsList (push_back h l node).0 (push_back h l node).1 (xs ++ node ∷ [])
      × ((y : Ptr) → count y xs ≡ 0 → (push_back h l node).0 y ≡ h y)
unfolding push_back
push_back-IsList h l [] node is f = (
  record {
    chain = ground (arith, is.tail, f.ne_null, f.no_next);
    tail = ground (arith, is.tail);
    once = λ x. ground arith;
  },
  λ y out. ground (arith, is.tail),
)
push_back-IsList h l (x ∷ xs) node is f =
    let end = Chain-last h l.head x xs is.chain in
    let tail : (l.tail == null) ≡ false = ground (arith, is.tail, end.1) in
    let chain = Chain-snoc h l.head x xs node f.ne_null f.no_next f.outside is.once is.chain in
    rw tail (
      rw (is.tail) (
        record {
          chain = chain;
          tail = sym (last-append x xs node);
          once = λ y. ground (arith, is.once y, f.outside, count-append y xs (node ∷ []));
        },
        λ y out. ground (arith, last-mem x xs),
      ))

-- On an empty list `pop_front` returns the null pointer and changes nothing.
pub pop_front-nil : (h : Next) (l : IntrusiveList) → IsList h l [] → pop_front h l ≡ (null, h, l)
unfolding pop_front
pop_front-nil h l is = rw is.chain

pop_tail :
    (h : Next) (l : IntrusiveList) (x : Ptr) (xs : List Ptr)
    → IsList h l (x ∷ xs)
    → (if h l.head == null then null else l.tail) ≡ last null xs
pop_tail h l x [] is = ground (arith, is.chain)
pop_tail h l x (y ∷ xs) is = ground (arith, is.chain, is.tail)

-- `pop_front` takes the first node off a list that has one, clears the node's `next` member, leaves
-- the list of the others, and writes no other node.
pub pop_front-cons :
    (h : Next) (l : IntrusiveList) (x : Ptr) (xs : List Ptr)
    → IsList h l (x ∷ xs)
    → ((pop_front h l).0 ≡ x)
      × (x ≢ null)
      × IsList (pop_front h l).1 (pop_front h l).2 xs
      × ((pop_front h l).1 x ≡ null)
      × ((y : Ptr) → y ≢ x → (pop_front h l).1 y ≡ h y)
unfolding pop_front
pop_front-cons h l x xs is =
    let head : (l.head == null) ≡ false = ground (arith, is.chain) in
    rw head (
      is.chain.0,
      is.chain.1,
      record {
        chain = rw is.chain.0 (
            Chain-frame h (update h x null) (h x) xs (λ y m. ground (arith, is.once x)) is.chain.2);
        tail = pop_tail h l x xs is;
        once = λ y. ground (arith, is.once y);
      },
      ground (arith, is.chain),
      λ y ne. ground (arith, is.chain),
    )

-- `swap` exchanges the nodes of two lists.
pub swap-IsList :
    (h : Next) (l other : IntrusiveList) (xs ys : List Ptr)
    → IsList h l xs
    → IsList h other ys
    → IsList h (swap l other).0 ys × IsList h (swap l other).1 xs
unfolding swap
swap-IsList h l other xs ys a b = (
  record { chain = b.chain; tail = b.tail; once = b.once },
  record { chain = a.chain; tail = a.tail; once = a.once },
)

-- The move constructor takes all nodes over, and leaves an empty list.
pub move-IsList :
    (h : Next) (other : IntrusiveList) (xs : List Ptr)
    → IsList h other xs
    → IsList h (move other).0 xs × IsList h (move other).1 []
unfolding move
move-IsList h other xs a =
    (record { chain = a.chain; tail = a.tail; once = a.once }, IsList-empty h)
