-- ===== src/IntrusiveList.antt =====
-- include/coopsync_tbb/detail/intrusive_list.hpp: the list of nodes that their owners embed. The
-- address of a node is a number, and 0 is the null pointer.
pub mod Chain
pub mod Laws
pub mod Contents
pub mod RoundTrip
use coopsync_tbb.Base.{ℕ, Bool, ◌&&◌, ◌||◌, not, if◌then◌else◌, ◌==◌, update}

abbrev pub Ptr : Type 0
Ptr = ℕ

abbrev pub null : Ptr
null = 0

-- The `next` member of each node.
abbrev pub Next : Type 0
Next = Ptr → Ptr

-- `m_head` and `m_tail`
pub record IntrusiveList : Type 0 where
  pub head : Ptr
  pub tail : Ptr

abbrev pub empty_list : IntrusiveList
empty_list = record { head = null; tail = null }

pub assert_invariants : Next → IntrusiveList → Bool
assert_invariants h l =
    (if l.head == null then l.tail == null else not (l.tail == null))
    && ((l.tail == null) || (h l.tail == null))

unfoldable pub push_back : Next → IntrusiveList → Ptr → Next × IntrusiveList
push_back h l node =
    if l.tail == null
    then (h, record { head = node; tail = node })
    else (update h l.tail node, record { head = l.head; tail = node })

-- The node is the null pointer if the list is empty.
unfoldable pub pop_front : Next → IntrusiveList → Ptr × Next × IntrusiveList
pop_front h l = if l.head == null then (null, h, l) else (
  l.head,
  update h l.head null,
  record { head = h l.head; tail = if h l.head == null then null else l.tail },
)

unfoldable pub empty : IntrusiveList → Bool
empty l = l.head == null

-- `swap`: the two lists, the other one first.
unfoldable pub swap : IntrusiveList → IntrusiveList → IntrusiveList × IntrusiveList
swap l other =
    (record { head = other.head; tail = other.tail }, record { head = l.head; tail = l.tail })

-- The move constructor: the new list, and what is left of the other one.
unfoldable pub move : IntrusiveList → IntrusiveList × IntrusiveList
move other = (record { head = other.head; tail = other.tail }, record { head = null; tail = null })
