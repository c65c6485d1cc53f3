-- ===== src/MasterRest/Handlers.antt =====
-- The handlers of the master's HTTP requests (src/master.cpp), from `request_first_stage` on.
use aiotc.Prelude.{
  ℕ, Bool, false, ◌&&◌, ◌||◌, Option, none, some, List, [], ◌∷◌, ℤ, pos, is_neg, if◌then◌else◌,
  ◌>>=◌,
}
use aiotc.Cstring.{Text, codes, strcmp_eq}
use aiotc.Slab.{Slab}
use aiotc.Json.{Host, int_at, str_at}
use aiotc.Slaves.{add_slave, del_slave}
use aiotc.Obj.{Objs, add_obj, del_obj}
use aiotc.Obj.Algs.{add_alg, del_alg}
use aiotc.Rest.{set_stream, set_preview, set_record, set_capture}
use aiotc.MasterRest.{
  Handler, login, logout, system_init, slave_add, slave_del, obj_add, obj_del, stream_start,
  stream_stop, preview_start, preview_stop, record_start, record_stop, record_play, capture_start,
  capture_stop, alg_support, task_start, task_stop, Selector, by_int, by_str, DbCall, write, del,
  update, db_update_int_by_id, MasterState, Outcome, init_system, with_table, table_of, no_effect,
  db_only, post_for, forward,
}

-- The texts that master_request_login answers with, and its test.
abbrev pub login_success : Text
login_success =
    codes "{\"code\":0,\"msg\":\"success\",\"data\":{\"token\":\"987654321abc\",\"validTime\":30}}"

abbrev pub login_failure : Text
login_failure = codes "{\"code\":-1,\"msg\":\"username or password is incorrect\",\"data\":{}}"

unfoldable pub is_admin : Option Text → Option Text → Bool
is_admin none pass_word = false
is_admin (some user_name) none = false
is_admin (some user_name) (some pass_word) =
    strcmp_eq user_name (codes "admin") && strcmp_eq pass_word (codes "123456")

module _ (s : Slab) (h : Host) (db_exsit : Text → Text → Selector → Bool) (master_obj_max : ℕ) where
  -- master_request_login
  unfoldable pub request_login : Text → MasterState s → Option (Outcome s)
  request_login buf st = some (record {
    master = st;
    posts = [];
    db = [];
    body = some (
        if is_admin (str_at h buf "userName") (str_at h buf "passWord")
        then login_success
        else login_failure);
  })

  -- master_request_system_init
  unfoldable pub request_system_init : Text → MasterState s → Option (Outcome s)
  unfolding init_system
  request_system_init buf st = db_only s (init_system s buf st) (
      write (codes "systemInit") (codes "original") buf (codes "original.msgOutParams.type")
        (by_str (codes "mq"))
      ∷ [])

  -- master_request_slave_add
  unfoldable pub request_slave_add : Text → MasterState s → Option (Outcome s)
  request_slave_add buf st = elim (str_at h buf "slaveIp") [
    | none ↦ no_effect s st
    | some slave_ip ↦ db_only s (with_table s st (add_slave s h buf (table_of s st))) (
        write (codes "slave") (codes "original") buf (codes "original.slaveIp") (by_str slave_ip)
        ∷ [])
  ]

  -- master_request_slave_del
  unfoldable pub request_slave_del : Text → MasterState s → Option (Outcome s)
  request_slave_del buf st = elim (str_at h buf "slaveIp") [
    | none ↦ no_effect s st
    | some slave_ip ↦
        db_only s (with_table s st (del_slave s h buf (table_of s st)))
          (del (codes "slave") (codes "original.slaveIp") (by_str slave_ip) ∷ [])
  ]

  -- master_request_obj_add
  unfoldable pub request_obj_add : Text → MasterState s → Option (Outcome s)
  request_obj_add buf st =
      if is_neg (int_at h buf "id")
      then no_effect s st
      else db_only s (record st { objs = add_obj s h st.slaves buf master_obj_max st.objs })
          (write (codes "obj") (codes "original") buf (codes "original.id")
              (by_int (int_at h buf "id"))
            ∷ [])

  -- master_request_obj_del
  unfoldable pub request_obj_del : Text → MasterState s → Option (Outcome s)
  request_obj_del buf st = db_only s (record st { objs = del_obj s h buf st.objs }) []

  -- master_request_stream_start
  unfoldable pub request_stream_start : Text → MasterState s → Option (Outcome s)
  unfolding forward
  request_stream_start buf =
      forward s (codes "/obj/stream/start") buf (int_at h buf "id") (set_stream (pos 1))
        (db_update_int_by_id h buf (codes "original.task.stream") (pos 1))

  -- master_request_stream_stop
  unfoldable pub request_stream_stop : Text → MasterState s → Option (Outcome s)
  unfolding forward
  request_stream_stop buf =
      forward s (codes "/obj/stream/stop") buf (int_at h buf "id") (set_stream (pos 0))
        (db_update_int_by_id h buf (codes "original.task.stream") (pos 0))

  -- dbUpdate of the preview of an object
  abbrev update_preview : ℤ → Text → List DbCall
  update_preview id kind =
      update (codes "obj") (codes "$set") (codes "original.id") (by_int id)
        (codes "original.task.preview") (by_str kind)
      ∷ []

  -- master_request_preview_start
  unfoldable pub request_preview_start : Text → MasterState s → Option (Outcome s)
  unfolding forward
  request_preview_start buf st = elim (str_at h buf "type") [
    | none ↦ no_effect s st
    | some kind ↦
        if is_neg (int_at h buf "id")
        then no_effect s st
        else forward s (codes "/obj/preview/start") buf (int_at h buf "id") (set_preview kind)
            (update_preview (int_at h buf "id") kind) st
  ]

  -- master_request_preview_stop
  unfoldable pub request_preview_stop : Text → MasterState s → Option (Outcome s)
  unfolding forward
  request_preview_stop buf =
      forward s (codes "/obj/preview/stop") buf (int_at h buf "id") (set_preview [])
        (update_preview (int_at h buf "id") [])

  -- master_request_record_start
  unfoldable pub request_record_start : Text → MasterState s → Option (Outcome s)
  unfolding forward
  request_record_start buf =
      forward s (codes "/obj/record/start") buf (int_at h buf "id") (set_record (pos 1))
        (db_update_int_by_id h buf (codes "original.task.record") (pos 1))

  -- master_request_record_stop
  unfoldable pub request_record_stop : Text → MasterState s → Option (Outcome s)
  unfolding forward
  request_record_stop buf =
      forward s (codes "/obj/record/stop") buf (int_at h buf "id") (set_record (pos 0))
        (db_update_int_by_id h buf (codes "original.task.record") (pos 0))

  -- master_request_capture_start
  unfoldable pub request_capture_start : Text → MasterState s → Option (Outcome s)
  unfolding forward
  request_capture_start buf =
      forward s (codes "/obj/capture/start") buf (int_at h buf "id") (set_capture (pos 1))
        (db_update_int_by_id h buf (codes "original.task.capture") (pos 1))

  -- master_request_capture_stop
  unfoldable pub request_capture_stop : Text → MasterState s → Option (Outcome s)
  unfolding forward
  request_capture_stop buf =
      forward s (codes "/obj/capture/stop") buf (int_at h buf "id") (set_capture (pos 0))
        (db_update_int_by_id h buf (codes "original.task.capture") (pos 0))

  -- The POST and the dbUpdate of master_request_task_start and master_request_task_stop, around
  -- what addAlg and delAlg leave of the objects.
  unfoldable pub change_alg :
      Text → Text → Text → ℤ → Text → Objs s → MasterState s → Option (Outcome s)
  unfolding post_for
  change_alg path cmd buf id alg_name objs st = do
    posts ← post_for s st path buf id
    some (record {
      master = record st { objs = objs };
      posts = posts;
      db =
          update (codes "obj") cmd (codes "original.id") (by_int id) (codes "original.task.alg")
            (by_str alg_name)
          ∷ [];
      body = none;
    })

  -- master_request_task_start
  unfoldable pub request_task_start : Text → MasterState s → Option (Outcome s)
  unfolding change_alg
  request_task_start buf st = elim (str_at h buf "alg") [
    | none ↦ no_effect s st
    | some alg_name ↦
        if is_neg (int_at h buf "id")
          || db_exsit (codes "obj") (codes "original.task.alg") (by_str alg_name)
        then no_effect s st
        else change_alg (codes "/task/start") (codes "$push") buf (int_at h buf "id") alg_name
            (add_alg s (int_at h buf "id") alg_name st.objs) st
  ]

  -- master_request_task_stop
  unfoldable pub request_task_stop : Text → MasterState s → Option (Outcome s)
  unfolding change_alg
  request_task_stop buf st = elim (str_at h buf "alg") [
    | none ↦ no_effect s st
    | some alg_name ↦
        if is_neg (int_at h buf "id")
        then no_effect s st
        else change_alg (codes "/task/stop") (codes "$pull") buf (int_at h buf "id") alg_name
            (del_alg s (int_at h buf "id") alg_name st.objs) st
  ]

  -- The function that a handler's name stands for; master_request_logout, master_request_record_play
  -- and master_request_alg_support have no body.
  unfoldable pub serve : Handler → Text → MasterState s → Option (Outcome s)
  serve login buf st = request_login buf st
  serve logout buf st = no_effect s st
  serve system_init buf st = request_system_init buf st
  serve slave_add buf st = request_slave_add buf st
  serve slave_del buf st = request_slave_del buf st
  serve obj_add buf st = request_obj_add buf st
  serve obj_del buf st = request_obj_del buf st
  serve stream_start buf st = request_stream_start buf st
  serve stream_stop buf st = request_stream_stop buf st
  serve preview_start buf st = request_preview_start buf st
  serve preview_stop buf st = request_preview_stop buf st
  serve record_start buf st = request_record_start buf st
  serve record_stop buf st = request_record_stop buf st
  serve record_play buf st = no_effect s st
  serve capture_start buf st = request_capture_start buf st
  serve capture_stop buf st = request_capture_stop buf st
  serve alg_support buf st = no_effect s st
  serve task_start buf st = request_task_start buf st
  serve task_stop buf st = request_task_stop buf st
