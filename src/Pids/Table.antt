-- ===== src/Pids/Table.antt =====
-- put2PidQueue followed by delOpsByPid (src/pids.cpp).
use aiotc.Prelude.{ℕ, ◌≡◌, ◌≢◌, refl, ap, true, false, none, ℤ, eq_ℤ, eq_ℤ_iff, arith, All, ◌*◌}
use aiotc.Slab.{Ptr, Slab}
use aiotc.Queue.{Node, append_node, node_size, empty, free_shm_queue, free_nodes}
use aiotc.Queue.Puts.{put-Puts, full, no_memory, stored}
use aiotc.Queue.Delete.{del_from_queue-append_node}
use aiotc.Keys.{del_msg_key}
use aiotc.Pids.{PidOps, Pids, condition_by_pid, put2_pid_queue, drop_ops, del_ops_by_pid}
use aiotc.Slab.{free-malloc}

module _ (s : Slab) (max : ℕ) (ops : PidOps) (st : Pids s) where
  abbrev node : Node PidOps
  node = record { name = ops; val = 0; arg = none }

  same_pid : (pid : ℤ) → eq_ℤ pid pid ≡ true
  same_pid pid = ground (arith, eq_ℤ_iff pid pid)

  free_objs-empty :
      (pool : s.Pool)
      → ops.pobj_queue ≡ empty
      → (free_shm_queue s (λ sp _. sp) pool ops.pobj_queue).0 ≡ pool
  unfolding free_shm_queue free_nodes
  free_objs-empty pool e = rw (e, free_shm_queue) refl

  drop_ops-stored :
      (x : Ptr) (pool : s.Pool)
      → All (λ p. condition_by_pid ops.pid p ≡ false) st.pid_queue.nodes
      → ops.pobj_queue ≡ empty
      → del_ops_by_pid s ops.pid (record st {
        pool = pool;
        pid_queue = append_node st.pid_queue (record { addr = x; node = node });
      })
        ≡ record {
          pool = s.free pool x;
          pid_queue = st.pid_queue;
          keys = del_msg_key ops.msg_key st.keys;
        }
  unfolding del_ops_by_pid drop_ops
  drop_ops-stored x pool new none_run =
      rw
        (
          del_from_queue-append_node (condition_by_pid ops.pid) st.pid_queue
              (record { addr = x; node = node }) new (same_pid ops.pid),
          free_objs-empty pool none_run,
        )
        refl

  -- A process without objects that put2PidQueue took into the table, under a pid that no process of
  -- the table has, is taken out by delOpsByPid: the table and the set of blocks handed out are as
  -- they were, and its message key is given back.
  pub del_ops_by_pid-put2_pid_queue :
      All (λ p. condition_by_pid ops.pid p ≡ false) st.pid_queue.nodes
      → ops.pobj_queue ≡ empty
      → (put2_pid_queue s max ops st).pid_queue ≢ st.pid_queue
      → ((del_ops_by_pid s ops.pid (put2_pid_queue s max ops st)).pid_queue ≡ st.pid_queue)
        × ((b : Ptr)
            → s.live (del_ops_by_pid s ops.pid (put2_pid_queue s max ops st)).pool b
              ≡ s.live st.pool b)
        × ((del_ops_by_pid s ops.pid (put2_pid_queue s max ops st)).keys
            ≡ del_msg_key ops.msg_key st.keys)
  unfolding put2_pid_queue
  del_ops_by_pid-put2_pid_queue new none_run took =
      elim (put-Puts s st.pool st.pid_queue node (max * 3)) [
        | full _ r ↦ absurd (took (ap (λ t. t.queue) r))
        | no_memory _ r ↦ absurd (took (ap (λ t. t.queue) r))
        | stored x _ m r ↦
            rw (put2_pid_queue, r, drop_ops-stored x (s.malloc st.pool node_size).1 new none_run)
              (refl, (λ b. free-malloc s st.pool node_size x b m), refl)
      ]
