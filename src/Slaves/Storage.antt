-- ===== src/Slaves/Storage.antt =====
-- addSlave followed by delSlave (src/master.cpp).
use aiotc.Prelude.{ℕ, ◌+◌, ◌≡◌, refl, true, false, none, some, arith, All, inl, inr, Option-cases}
use aiotc.Cstring.{strcmp_eq_iff}
use aiotc.Slab.{Ptr, Slab, free-malloc}
use aiotc.Queue.Puts.{put-Puts, full, no_memory, stored}
use aiotc.Queue.Delete.{remove_first-absent, remove_first-last}
use aiotc.Queue.{Node, Cell, append_node, node_size, del_from_queue}
use aiotc.Slaves.{SlaveParam, Table, condition_by_slave_ip, store_slave, del_slave_ip, after_put}

module _ (s : Slab) (len : ℕ) (slave : SlaveParam) (t : Table s) where
  -- What store_slave leaves: a table with the same nodes and blocks, or one with a node more and
  -- its two blocks.
  data Stores (t' : Table s) : Type 0 where
    refused : ((b : Ptr) → s.live t'.pool b ≡ s.live t.pool b) → t'.slaves ≡ t.slaves → Stores t'
    kept :
        (a x : Ptr)
        → (s.malloc t.pool (len + 1)).0 ≡ some a
        → (s.malloc (s.malloc t.pool (len + 1)).1 node_size).0 ≡ some x
        → t'.pool ≡ (s.malloc (s.malloc t.pool (len + 1)).1 node_size).1
        → t'.slaves
          ≡ append_node t.slaves
              (record { addr = x; node = record { name = slave; val = 0; arg = some a } })
        → Stores t'

  refuse :
      (a : Ptr) (sp : s.Pool)
      → ((b : Ptr) → s.live sp b ≡ s.live (s.malloc t.pool (len + 1)).1 b)
      → (s.malloc t.pool (len + 1)).0 ≡ some a
      → Stores (record { pool = s.free sp a; slaves = t.slaves })
  refuse a sp same e =
      refused
        (λ b. ground (
          arith,
          s.free_live sp a b,
          same b,
          s.free_live (s.malloc t.pool (len + 1)).1 a b,
          free-malloc s t.pool (len + 1) a b e,
        ))
        refl

  store_slave-Stores : Stores (store_slave s len slave t)
  unfolding store_slave after_put
  store_slave-Stores = elim (Option-cases (s.malloc t.pool (len + 1)).0) [
    | inl e ↦ rw (e, store_slave) (refused (λ b. s.malloc_full t.pool (len + 1) b e) refl)
    | inr (a, e) ↦
        let pool1 = (s.malloc t.pool (len + 1)).1 in
        let n : Node SlaveParam = record { name = slave; val = 0; arg = some a } in
        rw (e, store_slave)
          (elim (put-Puts s pool1 t.slaves n 1000) [
            | full _ r ↦ rw r (refuse a pool1 (λ b. refl) e)
            | no_memory m r ↦
                rw r
                  (refuse a (s.malloc pool1 node_size).1 (λ b. s.malloc_full pool1 node_size b m) e)
            | stored x _ m r ↦ rw r (kept a x e m refl refl)
          ])
  ]

  -- No slave of the table has this address.
  abbrev IsNew : Type 0
  IsNew = All (λ p. condition_by_slave_ip slave.ip p ≡ false) t.slaves.nodes

  del_slave_ip-absent :
      (t' : Table s) → IsNew → t'.slaves ≡ t.slaves → del_slave_ip s slave.ip t' ≡ t'
  unfolding del_slave_ip del_from_queue
  del_slave_ip-absent t' new e =
      ground (arith, remove_first-absent (condition_by_slave_ip slave.ip) t.slaves.nodes new)

  unfoldable IsBack : Table s → Type 0
  unfolding del_slave_ip del_from_queue
  IsBack t' =
      ((del_slave_ip s slave.ip t').slaves ≡ t.slaves)
      × ((b : Ptr) → s.live (del_slave_ip s slave.ip t').pool b ≡ s.live t.pool b)

  refused-IsBack :
      (t' : Table s)
      → IsNew
      → ((b : Ptr) → s.live t'.pool b ≡ s.live t.pool b)
      → t'.slaves ≡ t.slaves
      → IsBack t'
  unfolding IsBack
  refused-IsBack t' new lives same = rw (del_slave_ip-absent t' new same) (same, lives)

  matches_itself :
      condition_by_slave_ip slave.ip
        (record { addr = 0; node = record { name = slave; val = 0; arg = none } })
      ≡ true
  matches_itself = ground (arith, strcmp_eq_iff slave.ip slave.ip)

  kept-IsBack :
      (t' : Table s) (a x : Ptr)
      → IsNew
      → (s.malloc t.pool (len + 1)).0 ≡ some a
      → (s.malloc (s.malloc t.pool (len + 1)).1 node_size).0 ≡ some x
      → t'.pool ≡ (s.malloc (s.malloc t.pool (len + 1)).1 node_size).1
      → t'.slaves
        ≡ append_node t.slaves
            (record { addr = x; node = record { name = slave; val = 0; arg = some a } })
      → IsBack t'
  unfolding IsBack del_slave_ip del_from_queue
  kept-IsBack t' a x new e m pool slaves =
      let pool1 = (s.malloc t.pool (len + 1)).1 in
      let pool2 = (s.malloc pool1 node_size).1 in
      let c : Cell SlaveParam = record {
        addr = x;
        node = record { name = slave; val = 0; arg = some a };
      } in
      let gone =
        remove_first-last (condition_by_slave_ip slave.ip) t.slaves.nodes c new matches_itself in
      (
        ground (arith, gone),
        λ b. ground (
          arith,
          gone,
          s.free_live (s.free pool2 a) x b,
          s.free_live pool2 a b,
          s.malloc_live pool1 node_size x b m,
          s.malloc_fresh pool1 node_size x m,
          s.malloc_live t.pool (len + 1) a b e,
          s.malloc_live t.pool (len + 1) a x e,
          s.malloc_fresh t.pool (len + 1) a e,
          s.malloc_live t.pool (len + 1) a x e,
        ),
      )

  -- A slave whose address no slave of the table has, added and then deleted, leaves the slaves and
  -- the set of blocks handed out as they were, whether or not the table or the allocator took it.
  pub del_slave_ip-store_slave :
      IsNew
      → ((del_slave_ip s slave.ip (store_slave s len slave t)).slaves ≡ t.slaves)
        × ((b : Ptr)
            → s.live (del_slave_ip s slave.ip (store_slave s len slave t)).pool b ≡ s.live t.pool b)
  unfolding IsBack
  del_slave_ip-store_slave new = elim store_slave-Stores [
    | refused lives same ↦ refused-IsBack (store_slave s len slave t) new lives same
    | kept a x e m pool slaves ↦ kept-IsBack (store_slave s len slave t) a x new e m pool slaves
  ]
