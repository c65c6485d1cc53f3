-- ===== src/Pids.antt =====
-- The processes of a slave (src/pids.cpp, inc/pids.h): the table of running processes, the objects
-- that each one works on, and its load. `fork`, `procInit` and the clock are arguments. `taskMax` is
-- 0 until the process has set it, and is not negative.
pub mod Load
pub mod Table
pub mod Written
pub mod Again
use aiotc.Prelude.{
  ℕ, ◌+◌, ◌*◌, ◌/◌, Bool, true, false, not, ◌&&◌, ◌||◌, Option, none, some, List, [], ◌∷◌, map, ℤ,
  pos, eq_ℤ, is_neg, negsuc, lt_ℤ, ◌==◌, ltb, if◌then◌else◌, is_some,
}
use aiotc.Cstring.{Text, codes, strncmp_eq}
use aiotc.Slab.{Ptr, Slab}
use aiotc.Queue.{
  Node, Cell, Queue, empty, put_to_shm_queue, del_from_queue, search_from_queue, free_shm_queue,
}
use aiotc.Slaves.{slave_load_max}
use aiotc.Keys.{MsgKeys, get_msg_key, del_msg_key}
use aiotc.Obj.{ObjParam, condition_by_obj_id}

-- pidOps. `proc` stands for the function's address.
pub record PidOps : Type 0 where
  pub name : Text
  pub sub_name : Text
  pub task_name : Text
  pub proc : ℕ
  pub pid : ℤ
  pub msg_key : ℤ
  pub pobj_queue : Queue ObjParam
  pub load : ℕ
  pub task_max : ℕ
  pub last_reboot : ℕ
  pub running : Bool

abbrev pub proc_load_max : ℕ
proc_load_max = 100

-- getOpsByName, over the table g_pid_ops, which ends at the name "null".
unfoldable pub get_ops_by_name : (name sub_name task_name : Text) → List PidOps → Option PidOps
get_ops_by_name name sub_name task_name [] = none
get_ops_by_name name sub_name task_name (p ∷ ps) =
    let later = get_ops_by_name name sub_name task_name ps in
    if strncmp_eq 24 p.name (codes "null")
    then none
    else if strncmp_eq 24 name p.name
        && strncmp_eq 24 sub_name p.sub_name
        && strncmp_eq 24 task_name p.task_name
    then some p
    else later

abbrev pub condition_by_pid : ℤ → Cell PidOps → Bool
condition_by_pid pid p = eq_ℤ pid p.name.pid

-- The process runs the function `proc` under these names, and is not full.
abbrev pub serves : (name sub_name : Text) → ℕ → PidOps → Bool
serves name sub_name proc p =
    strncmp_eq 24 name p.name
    && strncmp_eq 24 sub_name p.sub_name
    && (p.proc == proc)
    && ltb p.load proc_load_max

-- conditionByPidOps and conditionByPidOps2
abbrev pub condition_by_pid_ops : (name sub_name : Text) → ℕ → ℤ → Cell PidOps → Bool
condition_by_pid_ops name sub_name proc id p =
    serves name sub_name proc p.name
    && is_some (search_from_queue (condition_by_obj_id id) p.name.pobj_queue)

abbrev pub condition_by_pid_ops2 : (name sub_name : Text) → ℕ → Cell PidOps → Bool
condition_by_pid_ops2 name sub_name proc p = serves name sub_name proc p.name

-- `queLen * 100 / taskMax`
abbrev pub load_of : Queue ObjParam → ℕ → ℕ
load_of q max = q.que_len * 100 / max

-- A write to the process at an address.
abbrev pub set_ops : Ptr → PidOps → Queue PidOps → Queue PidOps
set_ops a ops q = record q {
  nodes =
      map (λ p. if p.addr == a then record p { node = record (p.node) { name = ops } } else p)
        q.nodes;
}

module _ (s : Slab) where
  -- putObj2pidQue, where the wait for the process ends with the value `task_max` of its taskMax:
  -- the return value, the pool and the process. `reserved` of the object's copy is the process.
  unfoldable pub put_obj2pid_que : ℕ → ObjParam → s.Pool → PidOps → ℤ × s.Pool × PidOps
  put_obj2pid_que task_max obj pool ops =
      if task_max == 0
      then (negsuc 0, pool, record ops { task_max = 0 })
      else (let r =
            put_to_shm_queue s pool ops.pobj_queue (record { name = obj; val = 0; arg = none })
              task_max in
          (
            pos 0,
            r.pool,
            record ops {
              task_max = task_max;
              pobj_queue = r.queue;
              load = load_of r.queue task_max;
            },
          ))

  -- delObjFromPidQue: the division by a taskMax of 0 is a fault, `none`.
  unfoldable pub del_obj_from_pid_que : ℤ → s.Pool → PidOps → Option (s.Pool × PidOps)
  del_obj_from_pid_que id pool ops =
      let out = del_from_queue (condition_by_obj_id id) ops.pobj_queue in
      if ops.task_max == 0
      then none
      else some (
        elim out.0 [ none ↦ pool | some p ↦ s.free pool p.addr ],
        record ops { pobj_queue = out.1; load = load_of out.1 ops.task_max },
      )

  -- The pool, pidQueue and the keys.
  pub record Pids : Type 0 where
    pub pool : s.Pool
    pub pid_queue : Queue PidOps
    pub keys : MsgKeys

  -- put2PidQueue
  unfoldable pub put2_pid_queue : ℕ → PidOps → Pids → Pids
  put2_pid_queue slave_obj_max ops st =
      let r =
        put_to_shm_queue s st.pool st.pid_queue (record { name = ops; val = 0; arg = none })
          (slave_obj_max * 3) in
      record st { pool = r.pool; pid_queue = r.queue }

  -- delOpsByPid, from the result of delFromQueue on
  unfoldable pub drop_ops : Pids → Option (Cell PidOps) × Queue PidOps → Pids
  drop_ops st (none, pid_queue) = record st { pid_queue = pid_queue }
  drop_ops st (some p, pid_queue) = record {
    keys = del_msg_key p.name.msg_key st.keys;
    pool = s.free (free_shm_queue s (λ sp _. sp) st.pool p.name.pobj_queue).0 p.addr;
    pid_queue = pid_queue;
  }

  -- delOpsByPid
  unfoldable pub del_ops_by_pid : ℤ → Pids → Pids
  unfolding drop_ops
  del_ops_by_pid pid st = drop_ops st (del_from_queue (condition_by_pid pid) st.pid_queue)

  -- createProcess, where procInit's outcome is `inited` and the parent's fork returns `forked`.
  unfoldable pub create_process :
      List PidOps
      → (start max slave_obj_max : ℕ) → (PidOps → Bool)
      → ℤ
      → (name sub_name task_name : Text) → Pids
      → ℤ × Pids
  unfolding put2_pid_queue
  create_process pid_ops start max slave_obj_max inited forked name sub_name task_name st =
      elim (get_ops_by_name name sub_name task_name pid_ops) [
        | none ↦ (negsuc 0, st)
        | some ops ↦
            let got = get_msg_key start max name st.keys in
            let st' = record st { keys = got.1 } in
            if is_neg got.0 || not (inited (record ops { msg_key = got.0 }))
            then (negsuc 0, st')
            else (
              forked,
              put2_pid_queue slave_obj_max (record ops { msg_key = got.0; pid = forked }) st',
            )
      ]

  -- creatProcByPid, for a process that ended: its outcome, and what it leaves. `forked` is the pid
  -- of the process that takes its place.
  unfoldable pub creat_proc_by_pid : (old_pid forked : ℤ) → (now : ℕ) → Pids → ℤ × Pids
  unfolding del_ops_by_pid
  creat_proc_by_pid old_pid forked now st =
      elim (search_from_queue (condition_by_pid old_pid) st.pid_queue) [
        | none ↦ (negsuc 0, st)
        | some p ↦
            if not p.name.running
            then (pos 0, del_ops_by_pid old_pid st)
            else if ltb now (p.name.last_reboot + 300)
            then (negsuc 0, st)
            else (
              pos 0,
              record st {
                pid_queue =
                    set_ops p.addr (record (p.name) { pid = forked; last_reboot = now })
                      st.pid_queue;
              },
            )
      ]

  -- getEmptyProc, from the pid on: the object goes to the process with that pid.
  unfoldable pub give_obj : ℕ → ObjParam → ℤ → Pids → Option Ptr × Pids
  unfolding put_obj2pid_que
  give_obj task_max obj pid st = elim (search_from_queue (condition_by_pid pid) st.pid_queue) [
    | none ↦ (none, st)
    | some p ↦
        let r = put_obj2pid_que task_max obj st.pool p.name in
        (some p.addr, record st { pool = r.1; pid_queue = set_ops p.addr r.2 st.pid_queue })
  ]

  -- getEmptyProc, where no process was found: `created` is what createProcess would do.
  unfoldable pub new_proc : ℕ → ObjParam → ℤ → ℤ × Pids → Pids → Option Ptr × Pids
  unfolding give_obj
  new_proc task_max obj load created st =
      if lt_ℤ load slave_load_max && lt_ℤ (pos 0) created.0
      then give_obj task_max obj created.0 created.1
      else (none, if lt_ℤ load slave_load_max then created.1 else st)

  -- getEmptyProc, for the template of the process, at the slave's load `load`.
  unfoldable pub find_proc :
      ℕ → ObjParam → ℤ → ℤ × Pids → (name sub_name : Text) → PidOps → Pids → Option Ptr × Pids
  unfolding give_obj new_proc
  find_proc task_max obj load created name sub_name tmp st =
      elim (search_from_queue (condition_by_pid_ops name sub_name tmp.proc obj.id) st.pid_queue) [
        | some p ↦ (some p.addr, st)
        | none ↦
            elim (search_from_queue (condition_by_pid_ops2 name sub_name tmp.proc) st.pid_queue) [
              | some p ↦
                  if lt_ℤ (pos 0) p.name.pid
                  then give_obj task_max obj p.name.pid st
                  else (some p.addr, st)
              | none ↦ new_proc task_max obj load created st
            ]
      ]

  -- getEmptyProc: the process for an object, and what the call leaves.
  unfoldable pub get_empty_proc :
      List PidOps
      → (start max slave_obj_max : ℕ) → (PidOps → Bool)
      → ℤ
      → ℕ
      → ObjParam
      → ℤ
      → (name sub_name task_name : Text) → Pids
      → Option Ptr × Pids
  unfolding find_proc create_process
  get_empty_proc pid_ops start max slave_obj_max inited forked task_max obj load name sub_name
        task_name st =
      elim (get_ops_by_name name sub_name task_name pid_ops) [
        | none ↦ (none, st)
        | some tmp ↦
            find_proc task_max obj load
              (create_process pid_ops start max slave_obj_max inited forked name sub_name task_name
                st)
              name sub_name tmp st
      ]
