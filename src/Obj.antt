-- ===== src/Obj.antt =====
-- Objects and their tasks (inc/obj.h, inc/task.h, inc/alg.h), and the calls of src/misc.cpp that add
-- and delete them. The tasks' blocks are a memory from addresses to contents. `sem_init` is taken to
-- succeed, and the semaphores are left out: each function is one critical section.
pub mod Algs
pub mod Starts
pub mod Adds
pub mod Undo
use aiotc.Prelude.{
  ℕ, ◌+◌, Bool, true, false, not, ◌&&◌, ◌||◌, Option, none, some, List, [], ◌∷◌, ℤ, pos, eq_ℤ,
  is_neg, ◌==◌, ltb, if◌then◌else◌, is_some, length, ◌>>=◌,
}
use aiotc.Cstring.{Text, codes, strcmp_eq, strncmp_eq, strncpy}
use aiotc.Slab.{Ptr, Slab}
use aiotc.Json.{Host, int_at, int_at2, str_at, str_at2}
use aiotc.Queue.{
  Node, Cell, Queue, Put, empty, put_to_shm_queue, del_from_queue, search_from_queue, free_arg,
  free_shm_queue,
}
use aiotc.Slaves.{SlaveParam, condition_by_slave_ip}

-- algParams
pub record AlgParams : Type 0 where
  pub name : Text
  pub alg_beat : ℤ
  pub alg_task_beat : ℤ
  pub running : ℤ

-- taskParams, without the pointers that only the processes use.
pub record TaskParams : Type 0 where
  pub livestream : ℤ
  pub live_beat : ℤ
  pub live_task_beat : ℤ
  pub live_restart : ℤ
  pub capture : ℤ
  pub capture_beat : ℤ
  pub capture_task_beat : ℤ
  pub capture_restart : ℤ
  pub recording : ℤ
  pub record_beat : ℤ
  pub record_task_beat : ℤ
  pub record_restart : ℤ
  pub preview : Text
  pub preview_beat : ℤ
  pub preview_task_beat : ℤ
  pub preview_restart : ℤ
  pub alg_queue : Queue AlgParams

-- A task's block that `memset` cleared.
abbrev pub cleared_task : TaskParams
cleared_task = record {
  livestream = pos 0;
  live_beat = pos 0;
  live_task_beat = pos 0;
  live_restart = pos 0;
  capture = pos 0;
  capture_beat = pos 0;
  capture_task_beat = pos 0;
  capture_restart = pos 0;
  recording = pos 0;
  record_beat = pos 0;
  record_task_beat = pos 0;
  record_restart = pos 0;
  preview = [];
  preview_beat = pos 0;
  preview_task_beat = pos 0;
  preview_restart = pos 0;
  alg_queue = empty;
}

-- objParam. `slave` is the node of the slave's table.
pub record ObjParam : Type 0 where
  pub id : ℤ
  pub name : Text
  pub kind : Text
  pub subtype : Text
  pub attach_slave : Bool
  pub slave : Option Ptr
  pub task : Option Ptr
  pub obj_arg : Option Ptr
  pub originaldata : Option Ptr

-- conditionByObjId and conditionByAlgName
abbrev pub condition_by_obj_id : ℤ → Cell ObjParam → Bool
condition_by_obj_id id p = eq_ℤ id p.name.id

abbrev pub condition_by_alg_name : Text → Cell AlgParams → Bool
condition_by_alg_name alg_name p = strncmp_eq 32 alg_name p.name.name

-- sizeof(taskParams) and sizeof(cameraParams)
abbrev pub task_size : ℕ
task_size = 184

abbrev pub camera_size : ℕ
camera_size = 40

-- `if(value >= 0) field = value`
abbrev pub if_given : ℤ → ℤ → ℤ
if_given value field = if is_neg value then field else value

-- initObjTask: the fields of the task, and the slave of the object.
unfoldable pub preview_of : Option Text → Text → Text
preview_of none old = old
preview_of (some []) old = old
preview_of (some (c ∷ cs)) old = strncpy 32 (c ∷ cs)

unfoldable pub slave_at : Queue SlaveParam → Option Text → Option Ptr
slave_at slaves none = none
slave_at slaves (some slave_ip) = elim (search_from_queue (condition_by_slave_ip slave_ip) slaves) [
  | none ↦ none
  | some p ↦ some p.addr
]

unfoldable pub init_obj_task : Host → Queue SlaveParam → Text → TaskParams → TaskParams × Option Ptr
unfolding preview_of slave_at
init_obj_task h slaves buf t = (
  record t {
    livestream = if_given (int_at2 h buf "task" "stream") t.livestream;
    capture = if_given (int_at2 h buf "task" "capture") t.capture;
    recording = if_given (int_at2 h buf "task" "record") t.recording;
    preview = preview_of (str_at2 h buf "task" "preview") t.preview;
  },
  slave_at slaves (str_at2 h buf "slave" "ip"),
)

-- What addObj reads of a request before it takes memory.
pub record Request : Type 0 where
  pub id : ℤ
  pub name : Text
  pub kind : Text
  pub subtype : Text

unfoldable pub request_of : Host → Text → Option Request
request_of h buf = do
  name ← str_at h buf "name"
  kind ← str_at h buf "type"
  subtype ← str_at2 h buf "data" "subtype"
  let id = int_at h buf "id"
  if is_neg id then none else some (record { id = id; name = name; kind = kind; subtype = subtype })

-- A write to the tasks' memory.
abbrev pub write : (Ptr → TaskParams) → Ptr → TaskParams → Ptr → TaskParams
write mem a t b = if b == a then t else mem b

module _ (s : Slab) where
  -- The pool, the objects and the tasks' memory.
  pub record Objs : Type 0 where
    pub pool : s.Pool
    pub objs : Queue ObjParam
    pub tasks : Ptr → TaskParams

  -- initObjArg
  unfoldable pub init_obj_arg : Text → s.Pool → Option Ptr × s.Pool
  init_obj_arg kind pool =
      if strcmp_eq kind (codes "camera") then s.malloc pool camera_size else (none, pool)

  -- `if(ret != 0) shmFree(originaldata)`
  unfoldable pub after_put : Ptr → (Ptr → TaskParams) → Put s.Pool ObjParam → Objs
  after_put originaldata tasks r = record {
    pool = if eq_ℤ r.ret (pos 0) then r.pool else s.free r.pool originaldata;
    objs = r.queue;
    tasks = tasks;
  }

  -- addObj, from initObjArg's block on; `t` is what initObjTask makes.
  unfoldable pub queue_obj :
      ℕ → Request → TaskParams × Option Ptr → (a1 a2 : Ptr) → Objs → Option Ptr × s.Pool → Objs
  unfolding after_put
  queue_obj max q t a1 a2 st (none, pool) = record {
    pool = pool;
    objs = st.objs;
    tasks = write st.tasks a1 t.0;
  }
  queue_obj max q t a1 a2 st (some a3, pool) = after_put a2 (write st.tasks a1 t.0) (
      put_to_shm_queue s pool st.objs
        (record {
          name = record {
            id = q.id;
            name = strncpy 32 q.name;
            kind = strncpy 16 q.kind;
            subtype = strncpy 16 q.subtype;
            attach_slave = false;
            slave = t.1;
            task = some a1;
            obj_arg = some a3;
            originaldata = some a2;
          };
          val = 0;
          arg = none;
        })
        max)

  -- addObj, from its first two blocks on
  unfoldable pub store_obj :
      ℕ → Request → TaskParams × Option Ptr → (a1 a2 : Ptr) → s.Pool → Objs → Objs
  unfolding init_obj_arg queue_obj
  store_obj max q t a1 a2 pool st = queue_obj max q t a1 a2 st (init_obj_arg q.kind pool)

  -- addObj, from the request's fields on
  unfoldable pub add_request : ℕ → ℕ → Request → TaskParams × Option Ptr → Objs → Objs
  unfolding store_obj
  add_request max len q t st =
      let task = s.malloc st.pool task_size in
      let originaldata = s.malloc task.1 (len + 1) in
      elim task.0 [
        | none ↦ record st { pool = originaldata.1 }
        | some a1 ↦ elim originaldata.0 [
          | none ↦ record st { pool = originaldata.1 }
          | some a2 ↦ store_obj max q t a1 a2 originaldata.1 st
        ]
      ]

  -- addObj
  unfoldable pub add_obj : Host → Queue SlaveParam → Text → ℕ → Objs → Objs
  unfolding add_request request_of init_obj_task
  add_obj h slaves buf max st = elim (request_of h buf) [
    | none ↦ st
    | some q ↦ add_request max (length buf) q (init_obj_task h slaves buf cleared_task) st
  ]

  -- The blocks of an object's task, given back.
  unfoldable pub free_task : (Ptr → TaskParams) → s.Pool → Option Ptr → s.Pool
  free_task tasks pool none = pool
  free_task tasks pool (some a) =
      s.free (free_shm_queue s (λ sp _. sp) pool (tasks a).alg_queue).0 a

  -- delObj, from the result of delFromQueue on
  unfoldable pub drop_obj : Objs → Option (Cell ObjParam) × Queue ObjParam → Objs
  unfolding free_task
  drop_obj st (none, objs) = record st { objs = objs }
  drop_obj st (some p, objs) =
      let pool1 = free_task st.tasks st.pool p.name.task in
      let pool2 = free_arg s pool1 p.name.originaldata in
      let pool3 = free_arg s pool2 p.name.obj_arg in
      record st { pool = s.free (free_arg s pool3 p.arg) p.addr; objs = objs }

  -- delObj, for the id that the request names
  unfoldable pub del_obj_id : ℤ → Objs → Objs
  unfolding drop_obj
  del_obj_id id st = drop_obj st (del_from_queue (condition_by_obj_id id) st.objs)

  -- delObj
  unfoldable pub del_obj : Host → Text → Objs → Objs
  unfolding del_obj_id
  del_obj h buf st = del_obj_id (int_at h buf "id") st
