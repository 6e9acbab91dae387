-- ===== src/IntrusiveList/Chain.antt =====
-- The sequence of nodes that an intrusive list stands for.
use coopsync_tbb.Base.{◌≤◌, ◌<◌, ◌≡◌, ◌≢◌, refl, List, [], ◌∷◌, ◌++◌, arith, update, count}
use coopsync_tbb.IntrusiveList.{Ptr, null, Next, IntrusiveList}

-- From `p` the `next` members lead through the nodes of the list to the null pointer.
abbrev pub Chain : Next → Ptr → List Ptr → Type 0
Chain h p [] = p ≡ null
Chain h p (x ∷ xs) = (p ≡ x) × (x ≢ null) × Chain h (h x) xs

abbrev pub last : Ptr → List Ptr → Ptr
last p [] = p
last p (x ∷ xs) = last x xs

-- The list's pointers lead through these nodes, each of which stands there once.
pub record IsList (h : Next) (l : IntrusiveList) (xs : List Ptr) : Type 0 where
  pub chain : Chain h l.head xs
  pub tail : l.tail ≡ last null xs
  pub once : (x : Ptr) → count x xs ≤ 1

-- A chain survives a change of nodes that are not in it.
pub Chain-frame :
    (h g : Next) (p : Ptr) (xs : List Ptr)
    → ((x : Ptr) → 0 < count x xs → g x ≡ h x)
    → Chain h p xs
    → Chain g p xs
Chain-frame h g p [] same c = c
Chain-frame h g p (x ∷ xs) same c =
    let here : g x ≡ h x = same x (ground arith) in
    (c.0, c.1, rw here (Chain-frame h g (h x) xs (λ y m. same y (ground arith)) c.2))

pub last-mem : (p : Ptr) (xs : List Ptr) → 0 < count (last p xs) (p ∷ xs)
last-mem p [] = ground arith
last-mem p (x ∷ xs) = ground (arith, last-mem x xs)

pub last-append : (p : Ptr) (xs : List Ptr) (node : Ptr) → last p (xs ++ node ∷ []) ≡ node
last-append p [] node = refl
last-append p (x ∷ xs) node = last-append x xs node

-- The last node points nowhere.
pub Chain-last :
    (h : Next) (p x : Ptr) (xs : List Ptr)
    → Chain h p (x ∷ xs)
    → (h (last x xs) ≡ null) × (last x xs ≢ null)
Chain-last h p x [] c = (c.2, c.1)
Chain-last h p x (y ∷ xs) c = Chain-last h (h x) y xs c.2

-- A node put behind the last one.
pub Chain-snoc :
    (h : Next) (p : Ptr) (x : Ptr) (xs : List Ptr) (node : Ptr)
    → node ≢ null
    → h node ≡ null
    → count node (x ∷ xs) ≡ 0
    → ((y : Ptr) → count y (x ∷ xs) ≤ 1)
    → Chain h p (x ∷ xs)
    → Chain (update h (last x xs) node) p ((x ∷ xs) ++ node ∷ [])
Chain-snoc h p x [] node nn fresh out once c = ground arith
Chain-snoc h p x (y ∷ xs) node nn fresh out once c =
    let rest =
      Chain-snoc h (h x) y xs node nn fresh (ground arith) (λ z. ground (arith, once z)) c.2 in
    let apart : last y xs ≢ x = λ e. ground (arith, last-mem y xs, once x) in
    (c.0, c.1, (ground (arith, rest.0), rest.1, rest.2))

pub IsList_frame :
    (h g : Next) (l : IntrusiveList) (xs : List Ptr)
    → ((x : Ptr) → 0 < count x xs → g x ≡ h x)
    → IsList h l xs
    → IsList g l xs
IsList_frame h g l xs same is = record {
  chain = Chain-frame h g l.head xs same is.chain;
  tail = is.tail;
  once = is.once;
}
