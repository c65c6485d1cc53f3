-- ===== src/MasterRest.antt =====
-- The HTTP requests that the master serves, and what it reads of the database when it starts
-- (src/master.cpp, with httpPostSlave of src/misc.cpp and dbUpdateIntById of src/db.cpp).
--
-- The database is MongoDB, third-party code: a handler's calls of it are values, in their order, and
-- the answer of dbExsit is a parameter. So are the POSTs to the slaves, whose answer the handlers do
-- not read.
pub mod Handlers
pub mod Init
pub mod Changes
pub mod Forward
use aiotc.Prelude.{
  ◌+◌, Bool, true, false, not, ◌&&◌, ◌||◌, Option, none, some, List, [], ◌∷◌, ◌++◌, ℤ, pos, is_neg,
  ◌==◌, if◌then◌else◌, take, ◌>>=◌,
}
use aiotc.Cstring.{Text, codes, strcmp_eq}
use aiotc.Slab.{Ptr, Slab}
use aiotc.Json.{Host, int_at, str_at, get_obj_buf_from_json}
use aiotc.Queue.{Cell, Queue, search_from_queue}
use aiotc.Slaves.{SlaveParam, Table, add_slave, del_slave}
use aiotc.Obj.{ObjParam, TaskParams, Objs, condition_by_obj_id, add_obj, del_obj}
use aiotc.Obj.Algs.{add_alg, del_alg, system_inits}
use aiotc.Master.{node_at}
use aiotc.Rest.{decimal, on_task, set_stream, set_preview, set_record, set_capture}

-- A selection of documents by a number or by a text.
pub data Selector : Type 0 where
  by_int : ℤ → Selector
  by_str : Text → Selector

-- The calls of src/db.cpp, with the table and the names that they are given: dbWrite with the
-- request, dbDel, and dbUpdate with its command.
pub data DbCall : Type 0 where
  write : (table name json select_name : Text) → Selector → DbCall
  del : (table select_name : Text) → Selector → DbCall
  update : (table cmd select_name : Text) → Selector → (update_name : Text) → Selector → DbCall

-- dbUpdateIntById
unfoldable pub db_update_int_by_id : Host → Text → Text → ℤ → List DbCall
db_update_int_by_id h buf name val =
    if is_neg (int_at h buf "id")
    then []
    else update (codes "obj") (codes "$set") (codes "original.id") (by_int (int_at h buf "id")) name
        (by_int val)
      ∷ []

pub record Post : Type 0 where
  pub url : Text
  pub body : Text

-- The address that httpPostSlave prints for a slave.
unfoldable pub address : SlaveParam → Text → Text
address slave path =
    take 255 (codes "http://" ++ slave.ip ++ codes ":" ++ decimal slave.rest_port ++ path)

-- httpPostSlave. A read through a pointer to a slave that is deleted has no result.
unfoldable pub http_post_slave : Queue SlaveParam → Text → Text → ObjParam → Option (List Post)
unfolding address
http_post_slave slaves path buf obj = elim obj.slave [
  | none ↦ some []
  | some a ↦
      if obj.attach_slave
      then (do p ← node_at slaves a; some (record { url = address p.name path; body = buf } ∷ []))
      else some []
]

-- The handlers that master_url_map names.
pub data Handler : Type 0 where
  login logout system_init slave_add slave_del obj_add obj_del : Handler
  stream_start stream_stop preview_start preview_stop : Handler
  record_start record_stop record_play capture_start capture_stop : Handler
  alg_support task_start task_stop : Handler

-- master_url_map
unfoldable pub master_url_map : List (Text × Handler)
master_url_map =
    (codes "/system/login", login)
    ∷ (codes "/system/logout", logout)
    ∷ (codes "/system/init", system_init)
    ∷ (codes "/system/slave/add", slave_add)
    ∷ (codes "/system/slave/del", slave_del)
    ∷ (codes "/obj/add/tcp", obj_add)
    ∷ (codes "/obj/add/ehome", obj_add)
    ∷ (codes "/obj/add/gat1400", obj_add)
    ∷ (codes "/obj/add/rtsp", obj_add)
    ∷ (codes "/obj/add/gb28181", obj_add)
    ∷ (codes "/obj/add/sdk", obj_add)
    ∷ (codes "/obj/del", obj_del)
    ∷ (codes "/obj/stream/start", stream_start)
    ∷ (codes "/obj/stream/stop", stream_stop)
    ∷ (codes "/obj/preview/start", preview_start)
    ∷ (codes "/obj/preview/stop", preview_stop)
    ∷ (codes "/obj/record/start", record_start)
    ∷ (codes "/obj/record/stop", record_stop)
    ∷ (codes "/obj/record/play", record_play)
    ∷ (codes "/obj/capture/start", capture_start)
    ∷ (codes "/obj/capture/stop", capture_stop)
    ∷ (codes "/alg/support", alg_support)
    ∷ (codes "/task/start", task_start)
    ∷ (codes "/task/stop", task_stop)
    ∷ []

module _ (s : Slab) where
  -- The pool, the objects (mobjQueue), the slaves (slaveQueue) and `sysOrgData`.
  pub record MasterState : Type 0 where
    pub objs : Objs s
    pub slaves : Queue SlaveParam
    pub sys_org_data : Option Ptr

  -- What a handler leaves: the master, what it POSTs and asks of the database, and `*ppbody`.
  pub record Outcome : Type 0 where
    pub master : MasterState
    pub posts : List Post
    pub db : List DbCall
    pub body : Option Text

  -- systemInits, addSlave and delSlave on the master's state
  unfoldable pub init_system : Text → MasterState → MasterState
  init_system buf st =
      let out = system_inits s buf (st.objs.pool, st.sys_org_data) in
      record st { objs = record (st.objs) { pool = out.0 }; sys_org_data = out.1 }

  abbrev with_table : MasterState → Table s → MasterState
  with_table st t = record st { objs = record (st.objs) { pool = t.pool }; slaves = t.slaves }

  abbrev table_of : MasterState → Table s
  table_of st = record { pool = st.objs.pool; slaves = st.slaves }

  abbrev no_effect : MasterState → Option Outcome
  no_effect st = some (record { master = st; posts = []; db = []; body = none })

  abbrev db_only : MasterState → List DbCall → Option Outcome
  db_only st db = some (record { master = st; posts = []; db = db; body = none })

  -- The POST to the slave of the object of a request, if the object is found.
  unfoldable pub post_for : MasterState → Text → Text → ℤ → Option (List Post)
  unfolding http_post_slave
  post_for st path buf id = elim (search_from_queue (condition_by_obj_id id) st.objs.objs) [
    | none ↦ some []
    | some p ↦ http_post_slave st.slaves path buf p.name
  ]

  -- The handlers that start and stop a task of an object: the POST, the task's field, and the
  -- database, which is asked whether or not the object is found.
  unfoldable pub forward :
      Text → Text → ℤ → (TaskParams → TaskParams) → List DbCall → MasterState → Option Outcome
  unfolding post_for on_task
  forward path buf id f db st = do
    posts ← post_for st path buf id
    some (record {
      master = record st { objs = on_task s f id st.objs };
      posts = posts;
      db = db;
      body = none;
    })
