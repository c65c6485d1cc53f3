-- ===== src/Examples/Requests.antt =====
-- The laws of the HTTP requests at concrete inputs.
use aiotc.Prelude.{◌≡◌, refl, Bool, true, false, Option, none, some, List, [], ◌∷◌, pos, arith}
use aiotc.Cstring.{Text, codes, strcmp_eq}
use aiotc.Slab.{Ptr}
use aiotc.Json.{int_at, descend, get_int_val_from_json}
use aiotc.Queue.{Cell, empty, search_from_queue, find_first}
use aiotc.Obj.{ObjParam, Objs, cleared_task}
use aiotc.Master.{node_at}
use aiotc.Rest.{RestState, RestConfig, Handler, obj_add, stream_start, system_status}
use aiotc.Rest.Load.{IsServing, run-IsServing}
use aiotc.Rest.Load as Load
use aiotc.Rest.Body.{request_text, c_string, read_input, zeros}
use aiotc.MasterRest.{MasterState, Selector}
use aiotc.MasterRest.Changes.{HasTask, IsAttached, start_stream}
use aiotc.MasterRest.Forward.{Forwards, serve-Forwards}
use aiotc.Examples.Setup.{small_pool, one_document}
use aiotc.Examples.Masters.{slaves, idle, obj_on, obj_at}

abbrev config : RestConfig
config = record { master_enable = pos 0; slave_obj_max = 2 }

abbrev no_alg : Text → Text → Selector → Bool
no_alg table name sel = false

abbrev door : Bool → Option Ptr → Ptr → Cell ObjParam
door attached slave task =
    obj_at 30 (record (obj_on attached slave) { id = pos 7; task = some task })

abbrev objs_of : Cell ObjParam → Objs small_pool
objs_of p = record {
  pool = [];
  objs = record { nodes = p ∷ []; use_max = 0; que_len = 1 };
  tasks = λ _. cleared_task;
}

abbrev master : MasterState small_pool
master = record { objs = objs_of (door true (some 21) 31); slaves = slaves; sys_org_data = none }

abbrev slave : RestState small_pool
slave = record {
  objs = objs_of (door false none 35);
  sys_org_data = none;
  system_inited = pos 1;
  load = pos 50;
}

abbrev body : Text
body = codes "{\"id\": 7}"

at_master :
    HasTask small_pool
      (int_at one_document (request_text body) "id")
      master.objs
      (door true (some 21) 31)
      31
unfolding request_text c_string read_input zeros get_int_val_from_json descend strcmp_eq
    search_from_queue find_first
at_master = record { found = refl; at_task = refl }

at_slave :
    HasTask small_pool
      (int_at one_document (request_text body) "id")
      slave.objs
      (door false none 35)
      35
unfolding request_text c_string read_input zeros get_int_val_from_json descend strcmp_eq
    search_from_queue find_first
at_slave = record { found = refl; at_task = refl }

on_idle : IsAttached small_pool slaves (door true (some 21) 31).name idle
unfolding node_at find_first
on_idle = record { ptr = 21; names = refl; attached = refl; cell = refl }

serve-Forwards_example :
    Forwards small_pool small_pool one_document no_alg 5 config empty master slave
      (door true (some 21) 31)
      (door false none 35)
      31
      35
      idle
      start_stream
      (request_text body)
serve-Forwards_example =
    serve-Forwards small_pool small_pool one_document no_alg 5 config empty master slave
      (door true (some 21) 31) (door false none 35) 31 35 idle body at_master at_slave on_idle
      (record { stream = refl; recorded = refl; captured = refl; shown = refl }) start_stream

serving : IsServing small_pool 2 slave
serving = record { counted = record { exact = refl; within = omega arith }; loaded = refl }

abbrev requests : List (Handler × Text)
requests = (obj_add, body) ∷ (stream_start, body) ∷ (system_status, []) ∷ []

run-IsServing_example :
    (out : RestState small_pool) × (Load.run small_pool 2
        (omega arith)
        one_document
        (pos 0)
        empty
        requests
        slave
      ≡ some out)
    × IsServing small_pool 2 out
run-IsServing_example =
    run-IsServing small_pool 2 (omega arith) one_document (pos 0) empty requests slave serving
