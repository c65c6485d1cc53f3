-- ===== src/Rest/Handlers.antt =====
-- The handlers of a slave's HTTP requests (src/rest.cpp), from `request_first_stage` on.
use aiotc.Prelude.{
  ◌*◌, ◌/◌, Option, none, some, [], ◌++◌, ℤ, pos, eq_ℤ, is_neg, ◌==◌, if◌then◌else◌, take, ◌>>=◌,
}
use aiotc.Cstring.{Text, codes}
use aiotc.Slab.{Slab}
use aiotc.Json.{Host, int_at, str_at}
use aiotc.Queue.{Queue}
use aiotc.Slaves.{SlaveParam}
use aiotc.Obj.{add_obj, del_obj}
use aiotc.Obj.Algs.{add_alg, del_alg, system_inits}
use aiotc.Rest.{
  Handler, login, logout, system_init, system_status, obj_add, obj_del, stream_start, stream_stop,
  preview_start, preview_stop, record_start, record_stop, record_play, capture_start, capture_stop,
  alg_support, task_start, task_stop, RestState, RestConfig, Served, with_system, silent, on_task,
  set_stream, set_preview, set_record, set_capture, decimal,
}

module _ (s : Slab) (h : Host) (config : RestConfig) (slaves : Queue SlaveParam) where
  -- request_system_init
  unfoldable pub request_system_init : Text → RestState s → Served s
  unfolding system_inits
  request_system_init buf st =
      let st' =
        if eq_ℤ config.master_enable (pos 2)
        then st
        else with_system s st (system_inits s buf (st.objs.pool, st.sys_org_data)) in
      some (
        (if eq_ℤ st'.system_inited (pos 0) then record st' { system_inited = pos 1 } else st'),
        none,
      )

  -- `queLen*100 / slaveObjMax`
  unfoldable pub load_percent : RestState s → Option ℤ
  load_percent st =
      if config.slave_obj_max == 0
      then none
      else some (pos (st.objs.objs.que_len * 100 / config.slave_obj_max))

  -- request_system_status
  unfoldable pub request_system_status : RestState s → Served s
  unfolding load_percent
  request_system_status st = do
    load ← load_percent st
    some (
      record st { load = load },
      some (
          take 255 (
            codes "{\"code\":0,\"msg\":\"success\",\"data\":{\"systemInit\":"
            ++ decimal st.system_inited
            ++ codes ",\"load\":"
            ++ decimal load
            ++ codes "}}")),
    )

  -- request_obj_add
  unfoldable pub request_obj_add : Text → RestState s → Served s
  unfolding load_percent
  request_obj_add buf st =
      let st' = record st { objs = add_obj s h slaves buf config.slave_obj_max st.objs } in
      do
        load ← load_percent st'
        some (
          record st' { load = load },
          some (
              take 255 (
                codes "{\"code\":0,\"msg\":\"success\",\"data\":{\"load\":"
                ++ decimal load
                ++ codes "}}")),
        )

  -- request_obj_del
  unfoldable pub request_obj_del : Text → RestState s → Served s
  request_obj_del buf st = silent s st (del_obj s h buf st.objs)

  -- request_stream_start
  unfoldable pub request_stream_start : Text → RestState s → Served s
  request_stream_start buf st =
      silent s st (on_task s (set_stream (pos 1)) (int_at h buf "id") st.objs)

  -- request_stream_stop
  unfoldable pub request_stream_stop : Text → RestState s → Served s
  request_stream_stop buf st =
      silent s st (on_task s (set_stream (pos 0)) (int_at h buf "id") st.objs)

  -- request_preview_start
  unfoldable pub request_preview_start : Text → RestState s → Served s
  request_preview_start buf st = elim (str_at h buf "type") [
    | none ↦ some (st, none)
    | some kind ↦
        if is_neg (int_at h buf "id")
        then some (st, none)
        else silent s st (on_task s (set_preview kind) (int_at h buf "id") st.objs)
  ]

  -- request_preview_stop
  unfoldable pub request_preview_stop : Text → RestState s → Served s
  request_preview_stop buf st = silent s st (on_task s (set_preview []) (int_at h buf "id") st.objs)

  -- request_record_start
  unfoldable pub request_record_start : Text → RestState s → Served s
  request_record_start buf st =
      silent s st (on_task s (set_record (pos 1)) (int_at h buf "id") st.objs)

  -- request_record_stop
  unfoldable pub request_record_stop : Text → RestState s → Served s
  request_record_stop buf st =
      silent s st (on_task s (set_record (pos 0)) (int_at h buf "id") st.objs)

  -- request_capture_start
  unfoldable pub request_capture_start : Text → RestState s → Served s
  request_capture_start buf st =
      silent s st (on_task s (set_capture (pos 1)) (int_at h buf "id") st.objs)

  -- request_capture_stop
  unfoldable pub request_capture_stop : Text → RestState s → Served s
  request_capture_stop buf st =
      silent s st (on_task s (set_capture (pos 0)) (int_at h buf "id") st.objs)

  -- request_task_start
  unfoldable pub request_task_start : Text → RestState s → Served s
  request_task_start buf st = elim (str_at h buf "alg") [
    | none ↦ some (st, none)
    | some alg_name ↦
        if is_neg (int_at h buf "id")
        then some (st, none)
        else silent s st (add_alg s (int_at h buf "id") alg_name st.objs)
  ]

  -- request_task_stop
  unfoldable pub request_task_stop : Text → RestState s → Served s
  request_task_stop buf st = elim (str_at h buf "alg") [
    | none ↦ some (st, none)
    | some alg_name ↦
        if is_neg (int_at h buf "id")
        then some (st, none)
        else silent s st (del_alg s (int_at h buf "id") alg_name st.objs)
  ]

  -- The function that a handler's name stands for; request_login, request_logout,
  -- request_record_play and request_alg_support have no body.
  unfoldable pub serve : Handler → Text → RestState s → Served s
  serve login buf st = some (st, none)
  serve logout buf st = some (st, none)
  serve system_init buf st = request_system_init buf st
  serve system_status buf st = request_system_status st
  serve obj_add buf st = request_obj_add buf st
  serve obj_del buf st = request_obj_del buf st
  serve stream_start buf st = request_stream_start buf st
  serve stream_stop buf st = request_stream_stop buf st
  serve preview_start buf st = request_preview_start buf st
  serve preview_stop buf st = request_preview_stop buf st
  serve record_start buf st = request_record_start buf st
  serve record_stop buf st = request_record_stop buf st
  serve record_play buf st = some (st, none)
  serve capture_start buf st = request_capture_start buf st
  serve capture_stop buf st = request_capture_stop buf st
  serve alg_support buf st = some (st, none)
  serve task_start buf st = request_task_start buf st
  serve task_stop buf st = request_task_stop buf st
