-- ===== src/Obj/Algs.antt =====
-- The algorithms of a task, and the system's parameters: addAlg, delAlg and systemInits of
-- src/misc.cpp.
use aiotc.Prelude.{◌+◌, Option, none, some, ℤ, pos, length}
use aiotc.Cstring.{Text, strncpy}
use aiotc.Slab.{Ptr, Slab}
use aiotc.Queue.{
  Cell, Queue, Put, Node, put_to_shm_queue, del_from_queue, search_from_queue, free_arg,
}
use aiotc.Obj.{AlgParams, Objs, condition_by_obj_id, condition_by_alg_name, write}

-- The node that addAlg builds on its stack.
abbrev pub alg_node : Text → Node AlgParams
alg_node alg_name = record {
  name = record {
    name = strncpy 32 alg_name;
    alg_beat = pos 0;
    alg_task_beat = pos 0;
    running = pos 0;
  };
  val = 0;
  arg = none;
}

module _ (s : Slab) where
  -- What addAlg leaves of the task at `a`.
  unfoldable pub put_alg : Ptr → Objs s → Put s.Pool AlgParams → Objs s
  put_alg a st r = record st {
    pool = r.pool;
    tasks = write st.tasks a (record (st.tasks a) { alg_queue = r.queue });
  }

  -- addAlg and delAlg, without the POST to the object's slave. They read the task without a test for
  -- NULL, and addObj stores no object without one: the state stands for what would be a fault.
  unfoldable pub add_alg : ℤ → Text → Objs s → Objs s
  unfolding put_alg
  add_alg id alg_name st = elim (search_from_queue (condition_by_obj_id id) st.objs) [
    | none ↦ st
    | some p ↦ elim p.name.task [
      | none ↦ st
      | some a ↦
          put_alg a st (put_to_shm_queue s st.pool (st.tasks a).alg_queue (alg_node alg_name) 100)
    ]
  ]

  -- delAlg, for the task at `a`, from the result of delFromQueue on
  unfoldable pub drop_alg : Ptr → Objs s → Option (Cell AlgParams) × Queue AlgParams → Objs s
  drop_alg a st (none, algs) = record st {
    tasks = write st.tasks a (record (st.tasks a) { alg_queue = algs });
  }
  drop_alg a st (some palg, algs) = record st {
    pool = s.free (free_arg s st.pool palg.arg) palg.addr;
    tasks = write st.tasks a (record (st.tasks a) { alg_queue = algs });
  }

  unfoldable pub del_alg : ℤ → Text → Objs s → Objs s
  unfolding drop_alg
  del_alg id alg_name st = elim (search_from_queue (condition_by_obj_id id) st.objs) [
    | none ↦ st
    | some p ↦ elim p.name.task [
      | none ↦ st
      | some a ↦
          drop_alg a st (del_from_queue (condition_by_alg_name alg_name) (st.tasks a).alg_queue)
    ]
  ]

  -- systemInits: the pool and `sysOrgData`.
  unfoldable pub system_inits : Text → s.Pool × Option Ptr → s.Pool × Option Ptr
  system_inits buf (pool, sys_org_data) =
      let got = s.malloc (free_arg s pool sys_org_data) (length buf + 1) in (got.1, got.0)
