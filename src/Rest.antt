-- ===== src/Rest.antt =====
-- The HTTP requests that a slave serves (src/rest.cpp): the handlers behind `request_first_stage`,
-- and what request_cb hands them of a request's body and sends back.
--
-- A handler runs on the objects of the slave. The server itself is libevent, third-party code: it
-- calls the handler that http_task registers for a path.
pub mod Handlers
pub mod Body
pub mod Counts
pub mod Load
use Prim.Native.String.{String}
use aiotc.Prelude.{
  ℕ, zero, suc, ◌+◌, ◌*◌, ◌/◌, ◌%◌, Bool, true, false, ◌||◌, Option, none, some, List, [], ◌∷◌,
  ◌++◌, ℤ, pos, negsuc, eq_ℤ, is_neg, ltb, ◌==◌, if◌then◌else◌, take, ◌>>=◌,
}
use aiotc.Cstring.{Text, codes, strcmp_eq, strncpy}
use aiotc.Slab.{Ptr, Slab}
use aiotc.Json.{Host, int_at, str_at}
use aiotc.Queue.{Queue, search_from_queue}
use aiotc.Slaves.{SlaveParam}
use aiotc.Obj.{TaskParams, Objs, condition_by_obj_id, write, add_obj, del_obj}
use aiotc.Obj.Algs.{add_alg, del_alg, system_inits}

-- `printf("%d")` of an `int`, which has ten digits at most.
unfoldable pub digits : ℕ → ℕ → Text
digits zero n = []
digits (suc fuel) n =
    let front = digits fuel (n / 10) in
    if ltb n 10 then (48 + n) ∷ [] else front ++ (48 + n % 10) ∷ []

unfoldable pub decimal : ℤ → Text
unfolding digits
decimal (pos n) = digits 10 n
decimal (negsuc n) = 45 ∷ digits 10 (suc n)

-- The handlers that rest_url_map names.
pub data Handler : Type 0 where
  login logout system_init system_status obj_add obj_del : Handler
  stream_start stream_stop preview_start preview_stop : Handler
  record_start record_stop record_play capture_start capture_stop : Handler
  alg_support task_start task_stop : Handler

-- rest_url_map
unfoldable pub rest_url_map : List (Text × Handler)
rest_url_map =
    (codes "/system/login", login)
    ∷ (codes "/system/logout", logout)
    ∷ (codes "/system/init", system_init)
    ∷ (codes "/system/slave", system_status)
    ∷ (codes "/obj/add/tcp", obj_add)
    ∷ (codes "/obj/add/ehome", obj_add)
    ∷ (codes "/obj/add/gat1400", obj_add)
    ∷ (codes "/obj/add/rtsp", obj_add)
    ∷ (codes "/obj/add/gb28181", obj_add)
    ∷ (codes "/obj/add/sdk", obj_add)
    ∷ (codes "/obj/add", obj_add)
    ∷ (codes "/obj/del", obj_del)
    ∷ (codes "/obj/stream/start", stream_start)
    ∷ (codes "/obj/stream/stop", stream_stop)
    ∷ (codes "/obj/preview/start", preview_start)
    ∷ (codes "/obj/preview/stop", preview_stop)
    ∷ (codes "/obj/record/start", record_start)
    ∷ (codes "/obj/record/stop", record_stop)
    ∷ (codes "/obj/record/play", record_play)
    ∷ (codes "/obj/capture/start", capture_start)
    ∷ (codes "/obj/capture/stop", capture_stop)
    ∷ (codes "/alg/support", alg_support)
    ∷ (codes "/task/start", task_start)
    ∷ (codes "/task/stop", task_stop)
    ∷ []

-- http_task: the handler that it registers for a path. A path has one handler, the first.
unfoldable pub registered : {H : Type 0} → List (Text × H) → Text → Option H
registered [] path = none
registered ((url, cb) ∷ url_map) path =
    let later = registered url_map path in if strcmp_eq url path then some cb else later

-- The fields of a task that the requests write.
abbrev pub set_stream : ℤ → TaskParams → TaskParams
set_stream value t = record t { livestream = value }

abbrev pub set_preview : Text → TaskParams → TaskParams
set_preview kind t = record t { preview = strncpy 32 kind }

abbrev pub set_record : ℤ → TaskParams → TaskParams
set_record value t = record t { recording = value }

abbrev pub set_capture : ℤ → TaskParams → TaskParams
set_capture value t = record t { capture = value }

-- configParams' `masterEnable` and `slaveObjMax`
pub record RestConfig : Type 0 where
  pub master_enable : ℤ
  pub slave_obj_max : ℕ

module _ (s : Slab) where
  -- The search for the object of a request, and the write to its task. The handlers read the task
  -- without a test for NULL, and addObj stores no object without one: the state stands for what
  -- would be a fault.
  unfoldable pub on_task : (TaskParams → TaskParams) → ℤ → Objs s → Objs s
  on_task f id st = elim (search_from_queue (condition_by_obj_id id) st.objs) [
    | none ↦ st
    | some p ↦ elim p.name.task [
      | none ↦ st
      | some a ↦ record st { tasks = write st.tasks a (f (st.tasks a)) }
    ]
  ]

  -- What the handlers reach of the slave: slaveParams' `systemInit` and `load`, and `sysOrgData`.
  pub record RestState : Type 0 where
    pub objs : Objs s
    pub sys_org_data : Option Ptr
    pub system_inited : ℤ
    pub load : ℤ

  -- What a handler leaves: the state, and `*ppbody`, NULL where it does not set it. A division by a
  -- `slaveObjMax` of 0 has no result.
  abbrev pub Served : Type 0
  Served = Option (RestState × Option Text)

  -- The blocks and `sysOrgData` that systemInits leaves.
  abbrev pub with_system : RestState → s.Pool × Option Ptr → RestState
  with_system st (pool, sys_org_data) = record st {
    objs = record (st.objs) { pool = pool };
    sys_org_data = sys_org_data;
  }

  -- The handlers that write the slave's objects only.
  abbrev pub silent : RestState → Objs s → Served
  silent st objs = some (record st { objs = objs }, none)
