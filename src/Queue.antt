-- ===== src/Queue.antt =====
-- The linked queue of work/share/src/share.cpp and its two structures of work/share/inc/share.h.
-- A queue is the list of its nodes from `head` to `tail`, each with the address of its block. A
-- condition callback is a Boolean test of a node.
pub mod Puts
pub mod Length
pub mod Delete
pub mod Users
pub mod Blocks
pub mod Chain
use aiotc.Prelude.{
  ℕ, ◌+◌, ◌-◌, Bool, true, false, Option, none, some, List, [], ◌∷◌, ◌++◌, ℤ, pos, minus_one, ltb,
  leb, ◌==◌, if◌then◌else◌,
}
use aiotc.Slab.{Ptr, Slab}

-- What a caller fills in of `node_common` before it hands the node over.
pub record Node (A : Type 0) : Type 0 where
  pub name : A
  pub val : ℕ
  pub arg : Option Ptr

-- A node in a queue: its block's address and its contents.
pub record Cell (A : Type 0) : Type 0 where
  pub addr : Ptr
  pub node : Node A
  pub open node use *

pub record Queue (A : Type 0) : Type 0 where
  pub nodes : List (Cell A)
  pub use_max : ℕ
  pub que_len : ℕ

-- sizeof(node_common)
abbrev pub node_size : ℕ
node_size = 280

-- A queue that `memset` cleared.
abbrev pub empty : {A : Type 0} → Queue A
empty = record { nodes = []; use_max = 0; que_len = 0 }

abbrev pub append_node : {A : Type 0} → Queue A → Cell A → Queue A
append_node q c = record q { nodes = q.nodes ++ c ∷ []; que_len = q.que_len + 1 }

-- What a call leaves: its return value, the pool and the queue.
pub record Put (P A : Type 0) : Type 0 where
  pub ret : ℤ
  pub pool : P
  pub queue : Queue A

-- `if(p->arg != NULL) shmFree(sp, p->arg)`
abbrev pub free_arg : (s : Slab) → s.Pool → Option Ptr → s.Pool
free_arg s sp none = sp
free_arg s sp (some a) = s.free sp a

module _ (s : Slab) {A : Type 0} where
  open s use {Pool, malloc, free}

  -- putToShmQueue
  unfoldable pub put_to_shm_queue : Pool → Queue A → Node A → ℕ → Put Pool A
  put_to_shm_queue sp queue new_node max =
      if ltb queue.que_len max
      then (let got = malloc sp node_size in
          elim got.0 [
            | none ↦ record { ret = minus_one; pool = got.1; queue = queue }
            | some new_p ↦ record {
              ret = pos 0;
              pool = got.1;
              queue = append_node queue (record { addr = new_p; node = new_node });
            }
          ])
      else record { ret = minus_one; pool = sp; queue = queue }

  -- putToQueue, over the process heap: a full queue's length is returned, which is 0 for `max` 0.
  unfoldable pub put_to_queue : Pool → Queue A → Node A → ℕ → Put Pool A
  put_to_queue heap queue new_node max =
      if ltb queue.que_len max
      then (let got = malloc heap node_size in
          elim got.0 [
            | none ↦ record { ret = minus_one; pool = got.1; queue = queue }
            | some new_p ↦ record {
              ret = pos 0;
              pool = got.1;
              queue = append_node queue (record { addr = new_p; node = new_node });
            }
          ])
      else record { ret = pos queue.que_len; pool = heap; queue = queue }

  -- The loop of freeShmQueue and of freeQueue; `callback` is the identity where it is NULL.
  unfoldable pub free_nodes : (Pool → Cell A → Pool) → Pool → List (Cell A) → Pool
  free_nodes callback sp [] = sp
  free_nodes callback sp (p ∷ rest) =
      free_nodes callback (free (free_arg s (callback sp p) p.arg) p.addr) rest

  -- freeShmQueue and freeQueue
  unfoldable pub free_shm_queue : (Pool → Cell A → Pool) → Pool → Queue A → Pool × Queue A
  free_shm_queue callback sp queue =
      (free_nodes callback sp queue.nodes, record queue { nodes = []; que_len = 0 })

-- What getFromQueue leaves: its return value, `*new_p`, and the queue.
pub record Got (A : Type 0) : Type 0 where
  pub ret : ℤ
  pub taken : Option (Cell A)
  pub queue : Queue A

module _ {A : Type 0} where
  get_head : Queue A → List (Cell A) → Got A
  get_head queue [] = record { ret = pos 0; taken = none; queue = queue }
  get_head queue (p ∷ rest) =
      if queue.que_len == 0
      then record {
        ret = minus_one;
        taken = none;
        queue = record queue { nodes = rest; que_len = 0 };
      }
      else record {
        ret = pos 0;
        taken = some p;
        queue = record queue { nodes = rest; que_len = queue.que_len - 1 };
      }

  -- getFromQueue
  unfoldable pub get_from_queue : Queue A → Got A
  unfolding get_head
  get_from_queue queue = get_head queue queue.nodes

  -- The first node that meets the condition, and the nodes without it.
  unfoldable pub remove_first : (Cell A → Bool) → List (Cell A) → Option (Cell A) × List (Cell A)
  remove_first condition [] = (none, [])
  remove_first condition (p ∷ rest) =
      let later = remove_first condition rest in
      if condition p then (some p, rest) else (later.0, p ∷ later.1)

  -- `queLen --`, with the reset to 0 of a negative count
  abbrev pub after_delete : Queue A → Option (Cell A) × List (Cell A) → Option (Cell A) × Queue A
  after_delete queue (none, rest) = (none, queue)
  after_delete queue (some p, rest) =
      (some p, record queue { nodes = rest; que_len = queue.que_len - 1 })

  -- delFromQueue
  unfoldable pub del_from_queue : (Cell A → Bool) → Queue A → Option (Cell A) × Queue A
  unfolding remove_first
  del_from_queue condition queue = after_delete queue (remove_first condition queue.nodes)

  -- `p->val ++`
  abbrev pub used_once_more : Cell A → Cell A
  used_once_more p = record p { node = record (p.node) { val = p.val + 1 } }

  -- The walk of delFromQueueByUser: the node met, whether it left the list, and the list.
  unfoldable pub use_first :
      ℕ → (Cell A → Bool) → List (Cell A) → Option (Cell A) × Bool × List (Cell A)
  use_first use_max condition [] = (none, false, [])
  use_first use_max condition (p ∷ rest) =
      let later = use_first use_max condition rest in
      let p' = used_once_more p in
      if condition p
      then (if leb use_max p'.val then (some p', true, rest) else (some p', false, p' ∷ rest))
      else (later.0, later.1, p ∷ later.2)

  -- delFromQueueByUser
  unfoldable pub del_from_queue_by_user : (Cell A → Bool) → Queue A → Option (Cell A) × Queue A
  unfolding use_first
  del_from_queue_by_user condition queue =
      let out = use_first queue.use_max condition queue.nodes in
      (
        out.0,
        record queue {
          nodes = out.2;
          que_len = if out.1 then queue.que_len - 1 else queue.que_len;
        },
      )

  -- searchFromQueue
  unfoldable pub find_first : (Cell A → Bool) → List (Cell A) → Option (Cell A)
  find_first condition [] = none
  find_first condition (p ∷ rest) =
      let later = find_first condition rest in if condition p then some p else later

  unfoldable pub search_from_queue : (Cell A → Bool) → Queue A → Option (Cell A)
  unfolding find_first
  search_from_queue condition queue = find_first condition queue.nodes

  -- The loop of traverseQueue. A callback may write its node and the state `S` behind `arg`; a
  -- result that is not 0 ends the walk.
  unfoldable pub visit :
      {S : Type 0} → (S → Cell A → Bool × S × Cell A) → S → List (Cell A) → S × List (Cell A)
  visit callback st [] = (st, [])
  visit callback st (p ∷ rest) =
      let now = callback st p in
      let later = visit callback now.1 rest in
      if now.0 then (now.1, now.2 ∷ rest) else (later.0, now.2 ∷ later.1)

  -- traverseQueue
  unfoldable pub traverse_queue :
      {S : Type 0} → (S → Cell A → Bool × S × Cell A) → S → Queue A → S × Queue A
  unfolding visit
  traverse_queue callback st queue =
      let out = visit callback st queue.nodes in (out.0, record queue { nodes = out.1 })
