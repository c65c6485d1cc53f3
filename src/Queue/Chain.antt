-- ===== src/Queue/Chain.antt =====
-- The linked queue with its pointers: `head`, `tail` and `next` over a memory from addresses to nodes
-- (work/share/src/share.cpp). A read or a write through NULL, or of an address that holds no node,
-- has no result. The loops run on fuel, and have no result where it runs out.
pub mod Segments
pub mod Unlink
pub mod Links
pub mod Ops
pub mod Walks
pub mod Uses
pub mod Runs
use aiotc.Prelude.{
  ℕ, zero, suc, ◌+◌, ◌-◌, Bool, true, false, ◌&&◌, Option, none, some, ℤ, pos, minus_one, ltb, leb,
  ◌==◌, if◌then◌else◌, ◌>>=◌,
}
use aiotc.Slab.{Ptr, Slab}
use aiotc.Queue.{Node, Cell, node_size, free_arg}

-- node_common in memory: what the caller filled in, and `next`.
pub record Link (A : Type 0) : Type 0 where
  pub node : Node A
  pub next : Option Ptr

abbrev pub Heap : Type 0 → Type 0
Heap A = Ptr → Option (Link A)

-- queue_common, with the memory behind its pointers.
pub record Chain (A : Type 0) : Type 0 where
  pub heap : Heap A
  pub head : Option Ptr
  pub tail : Option Ptr
  pub use_max : ℕ
  pub que_len : ℕ

abbrev pub eq_ptr : Ptr → Option Ptr → Bool
eq_ptr a none = false
eq_ptr a (some b) = a == b

module _ {A : Type 0} where
  abbrev pub store : Heap A → Ptr → Link A → Heap A
  store heap a l b = if b == a then some l else heap b

  -- `p->next = next`
  unfoldable pub set_next : Heap A → Option Ptr → Option Ptr → Option (Heap A)
  set_next heap p next = do a ← p; l ← heap a; some (store heap a (record l { next = next }))

  -- putToShmQueue, from memcpy on; `new_p` is the new block.
  unfoldable pub link : Ptr → Node A → Chain A → Option (Chain A)
  unfolding set_next
  link new_p new_node q =
      let heap = store q.heap new_p (record { node = new_node; next = none }) in
      elim q.head [
        | none ↦ some (record q {
          heap = heap;
          head = some new_p;
          tail = some new_p;
          que_len = q.que_len + 1;
        })
        | some _ ↦ (do
          heap' ← set_next heap q.tail (some new_p)
          some (record q { heap = heap'; tail = some new_p; que_len = q.que_len + 1 }))
      ]

  -- getFromQueue, for the value of `head`, with the node that `*new_p` is set to
  unfoldable pub get_at : Chain A → Option Ptr → Option (Option (Cell A) × Chain A)
  get_at q none = some (none, q)
  get_at q (some p) = do
    l ← q.heap p
    let q' = record q {
      head = l.next;
      tail = elim l.next [ none ↦ none | some _ ↦ q.tail ];
      que_len = q.que_len - 1;
    }
    some (if q.que_len == 0 then (none, q') else (some (record { addr = p; node = l.node }), q'))

  -- getFromQueue
  unfoldable pub get_from_chain : Chain A → Option (Option (Cell A) × Chain A)
  unfolding get_at
  get_from_chain q = get_at q q.head

  -- The four cases in which delFromQueue and delFromQueueByUser take the node at `p` off the queue,
  -- with `queLen --`.
  unfoldable pub unlink :
      Chain A → (prev : Option Ptr) → Ptr → (next : Option Ptr) → Option (Chain A)
  unfolding set_next
  unlink q prev p next =
      let len = q.que_len - 1 in
      if eq_ptr p q.head
      then some (
          if eq_ptr p q.tail
          then record q { head = none; tail = none; que_len = len }
          else record q { head = next; que_len = len })
      else if eq_ptr p q.tail
      then (do
        heap ← set_next q.heap prev none
        some (record q { heap = heap; tail = prev; que_len = len }))
      else (do heap ← set_next q.heap prev next; some (record q { heap = heap; que_len = len }))

  -- delFromQueue, from the state of its loop on
  unfoldable pub del_walk :
      ℕ → (Cell A → Bool) → Chain A → (prev p : Option Ptr) → Option (Option (Cell A) × Chain A)
  unfolding unlink
  del_walk fuel condition q prev none = some (none, q)
  del_walk zero condition q prev (some a) = none
  del_walk (suc fuel) condition q prev (some a) = do
    l ← q.heap a
    let later = del_walk fuel condition q (some a) l.next
    let p : Cell A = record { addr = a; node = l.node }
    if condition p then (do q' ← unlink q prev a l.next; some (some p, q')) else later

  -- delFromQueue
  unfoldable pub del_from_chain : ℕ → (Cell A → Bool) → Chain A → Option (Option (Cell A) × Chain A)
  unfolding del_walk
  del_from_chain fuel condition q = del_walk fuel condition q q.head q.head

  -- delFromQueueByUser, at the node that meets the condition
  unfoldable pub use_at :
      Chain A → (prev : Option Ptr) → Ptr → Link A → Option (Option (Cell A) × Chain A)
  unfolding unlink
  use_at q prev a l =
      let node = record (l.node) { val = l.node.val + 1 } in
      let q' = record q { heap = store q.heap a (record { node = node; next = l.next }) } in
      let p : Cell A = record { addr = a; node = node } in
      if leb q.use_max p.val
      then (do q'' ← unlink q' prev a l.next; some (some p, q''))
      else some (some p, q')

  -- delFromQueueByUser, from the state of its loop on
  unfoldable pub use_walk :
      ℕ → (Cell A → Bool) → Chain A → (prev p : Option Ptr) → Option (Option (Cell A) × Chain A)
  unfolding use_at
  use_walk fuel condition q prev none = some (none, q)
  use_walk zero condition q prev (some a) = none
  use_walk (suc fuel) condition q prev (some a) = do
    l ← q.heap a
    let later = use_walk fuel condition q (some a) l.next
    if condition (record { addr = a; node = l.node }) then use_at q prev a l else later

  -- delFromQueueByUser
  unfoldable pub use_from_chain : ℕ → (Cell A → Bool) → Chain A → Option (Option (Cell A) × Chain A)
  unfolding use_walk
  use_from_chain fuel condition q = use_walk fuel condition q q.head q.head

  -- searchFromQueue
  unfoldable pub search_walk : ℕ → (Cell A → Bool) → Heap A → Option Ptr → Option (Option (Cell A))
  search_walk fuel condition heap none = some none
  search_walk zero condition heap (some a) = none
  search_walk (suc fuel) condition heap (some a) = do
    l ← heap a
    let later = search_walk fuel condition heap l.next
    let p : Cell A = record { addr = a; node = l.node }
    if condition p then some (some p) else later

module _ (s : Slab) {A : Type 0} where
  -- putToShmQueue
  unfoldable pub put_to_chain : s.Pool → Chain A → Node A → ℕ → Option (ℤ × s.Pool × Chain A)
  unfolding link
  put_to_chain sp q new_node max =
      if ltb q.que_len max
      then (let got = s.malloc sp node_size in
          elim got.0 [
            | none ↦ some (minus_one, got.1, q)
            | some new_p ↦ (do q' ← link new_p new_node q; some (pos 0, got.1, q'))
          ])
      else some (minus_one, sp, q)

  -- The loop of freeShmQueue, without a callback
  unfoldable pub free_walk : ℕ → Heap A → s.Pool → Option Ptr → Option s.Pool
  free_walk fuel heap sp none = some sp
  free_walk zero heap sp (some a) = none
  free_walk (suc fuel) heap sp (some a) = do
    l ← heap a
    free_walk fuel heap (s.free (free_arg s sp l.node.arg) a) l.next

  -- freeShmQueue
  unfoldable pub free_chain : ℕ → s.Pool → Chain A → Option (s.Pool × Chain A)
  unfolding free_walk
  free_chain fuel sp q = do
    sp' ← free_walk fuel q.heap sp q.head
    some (sp', record q { head = none; tail = none; que_len = 0 })
