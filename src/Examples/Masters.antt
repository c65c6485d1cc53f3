-- ===== src/Examples/Masters.antt =====
-- The laws of the master's tables at concrete slaves and objects.
use Prim.Native.String.{String}
use aiotc.Prelude.{
  ℕ, ◌≡◌, refl, Bool, true, false, ◌||◌, ◌⊎◌, Option, none, some, [], ◌∷◌, ◌==◌, pos, arith,
}
use aiotc.Cstring.{codes, strcmp_eq}
use aiotc.Slab.{Ptr}
use aiotc.Queue.{Cell, Queue, put_to_shm_queue}
use aiotc.Slaves.{SlaveParam, Table, store_slave, del_slave_ip, get_lowest_load_slave}
use aiotc.Slaves.Choice.{Chooses, get_lowest_load_slave-Chooses}
use aiotc.Slaves.Storage.{del_slave_ip-store_slave}
use aiotc.Obj.Algs.{add_alg}
use aiotc.Obj.{
  ObjParam, Request, Objs, cleared_task, add_request, del_obj_id, store_obj, queue_obj, after_put,
  init_obj_arg,
}
use aiotc.Obj.Undo.{del_obj_id-add_request, add_request-leak}
use aiotc.Master.{Managed, manage}
use aiotc.Master.Assign.{Manages, IsDangling, manage-Manages}
use aiotc.Examples.Setup.{small_pool, longer}

abbrev pub slave_of : String → ℕ → ℕ → ℕ → SlaveParam
slave_of ip load online offline = record {
  ip = codes ip;
  internet_ip = codes ip;
  rest_port = pos 8000;
  stream_port = pos 8001;
  system_init = true;
  load = pos load;
  online = online;
  offline = offline;
}

abbrev pub at_addr : Ptr → SlaveParam → Cell SlaveParam
at_addr a p = record { addr = a; node = record { name = p; val = 0; arg = none } }

abbrev pub idle : Cell SlaveParam
idle = at_addr 21 (slave_of "10.0.0.2" 20 1000 0)

abbrev lost : Cell SlaveParam
lost = at_addr 22 (slave_of "10.0.0.3" 10 0 1000)

abbrev pub slaves : Queue SlaveParam
slaves = record {
  nodes = at_addr 20 (slave_of "10.0.0.1" 50 1000 0) ∷ idle ∷ lost ∷ [];
  use_max = 0;
  que_len = 3;
}

abbrev pub obj_on : Bool → Option Ptr → ObjParam
obj_on attached slave = record {
  id = pos 1;
  name = codes "door";
  kind = codes "camera";
  subtype = codes "rtsp";
  attach_slave = attached;
  slave = slave;
  task = some 31;
  obj_arg = some 33;
  originaldata = some 32;
}

abbrev pub obj_at : Ptr → ObjParam → Cell ObjParam
obj_at a p = record { addr = a; node = record { name = p; val = 0; arg = none } }

abbrev objs : Queue ObjParam
objs = record {
  nodes = obj_at 30 (obj_on true (some 21)) ∷ obj_at 40 (obj_on true (some 20)) ∷ [];
  use_max = 0;
  que_len = 2;
}

get_lowest_load_slave-Chooses_example : Chooses slaves.nodes (get_lowest_load_slave slaves)
get_lowest_load_slave-Chooses_example = get_lowest_load_slave-Chooses slaves

manage-Manages_example :
    ((manage 1200 slaves (obj_on false (some 22)) ≡ none)
      × IsDangling slaves (obj_on false (some 22)))
    ⊎ ((out : Managed) × (manage 1200 slaves (obj_on false (some 22)) ≡ some out)
        × Manages 1200 slaves (obj_on false (some 22)) out)
manage-Manages_example = manage-Manages 1200 slaves (obj_on false (some 22))

abbrev table : Table small_pool
table = record { pool = []; slaves = slaves }

abbrev new_slave : SlaveParam
new_slave = slave_of "10.0.0.9" 0 0 0

del_slave_ip-store_slave_example :
    ((del_slave_ip small_pool (codes "10.0.0.9") (store_slave small_pool 90 new_slave table)).slaves
      ≡ slaves)
    × ((b : Ptr)
        → small_pool.live
            (del_slave_ip small_pool
              (codes "10.0.0.9")
              (store_slave small_pool 90 new_slave table)).pool
            b
          ≡ small_pool.live [] b)
unfolding strcmp_eq
del_slave_ip-store_slave_example =
    del_slave_ip-store_slave small_pool 90 new_slave table (refl, (refl, (refl, tt)))

abbrev request : Request
request = record { id = pos 2; name = codes "gate"; kind = codes "camera"; subtype = codes "rtsp" }

abbrev start : Objs small_pool
start = record { pool = []; objs = objs; tasks = λ _. cleared_task }

abbrev added : ℕ → Objs small_pool
added max = add_request small_pool max 80 request (cleared_task, none) start

del_obj_id-add_request_example :
    ((del_obj_id small_pool (pos 2) (added 5)).objs ≡ objs)
    × ((b : Ptr)
        → small_pool.live (del_obj_id small_pool (pos 2) (added 5)).pool b ≡ small_pool.live [] b)
unfolding add_request store_obj queue_obj after_put init_obj_arg put_to_shm_queue strcmp_eq
del_obj_id-add_request_example =
    del_obj_id-add_request small_pool 5 80 request (cleared_task, none) start (refl, (refl, tt))
      refl (longer (λ e. absurd (omega arith)))

add_request-leak_example :
    ((added 2).objs ≡ objs)
    × ((b : Ptr) → small_pool.live (added 2).pool b ≡ (b == 1 || b == 3 || small_pool.live [] b))
unfolding strcmp_eq
add_request-leak_example =
    add_request-leak small_pool 2 80 request (cleared_task, none) start (omega arith) refl 1 2 3
      refl refl refl

abbrev with_alg : Objs small_pool
with_alg = add_alg small_pool (pos 1) (codes "face") start
