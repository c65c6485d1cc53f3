-- ===== src/Examples/Processes.antt =====
-- The laws of the processes at a process of two objects.
use aiotc.Prelude.{
  ◌<◌, ◌≡◌, ◌↔◌, refl, true, false, some, none, List, [], ◌∷◌, ℕ, ℤ, pos, length, arith,
}
use aiotc.Cstring.{codes, strncmp_eq}
use aiotc.Slab.{Ptr}
use aiotc.Queue.{empty, put_to_shm_queue, search_from_queue, find_first}
use aiotc.Queue.Length.{IsCounted}
use aiotc.Keys.{del_msg_key}
use aiotc.Obj.{ObjParam}
use aiotc.Pids.{PidOps, Pids, put2_pid_queue, del_ops_by_pid, find_proc}
use aiotc.Pids.Load.{IsLoaded, Call, puts, dels, run, run-load}
use aiotc.Pids.Again.{Again, find_proc-Again}
use aiotc.Pids.Table.{del_ops_by_pid-put2_pid_queue}
use aiotc.Examples.Setup.{small_pool, longer}

abbrev obj : ℕ → ObjParam
obj id = record {
  id = pos id;
  name = codes "door";
  kind = codes "camera";
  subtype = codes "rtsp";
  attach_slave = false;
  slave = none;
  task = none;
  obj_arg = none;
  originaldata = none;
}

abbrev process : ℤ → ℤ → ℕ → PidOps
process pid msg_key task_max = record {
  name = codes "obj";
  sub_name = codes "rtsp";
  task_name = codes "live";
  proc = 1;
  pid = pid;
  msg_key = msg_key;
  pobj_queue = empty;
  load = 0;
  task_max = task_max;
  last_reboot = 0;
  running = true;
}

process-IsLoaded : IsLoaded 2 (process (pos 900) (pos 101) 2)
process-IsLoaded = record {
  limit = refl;
  counted = record { exact = refl; within = omega arith };
  loaded = refl;
}

abbrev calls : List (Call small_pool 2 (omega arith))
calls = puts (obj 1) ∷ puts (obj 2) ∷ puts (obj 3) ∷ dels (pos 1) ∷ dels (pos 9) ∷ []

run-load_example :
    (out : small_pool.Pool × PidOps) × (run small_pool 2
        (omega arith)
        calls
        ([], process (pos 900) (pos 101) 2)
      ≡ some out)
    × IsCounted 2 out.1.pobj_queue
    × ((out.1.load < 100) ↔ (length out.1.pobj_queue.nodes < 2))
run-load_example =
    run-load small_pool 2 (omega arith) calls [] (process (pos 900) (pos 101) 2) process-IsLoaded

abbrev table : Pids small_pool
table = record {
  pool = [];
  pid_queue = record {
    nodes =
        record {
          addr = 50;
          node = record { name = process (pos 900) (pos 101) 2; val = 0; arg = none };
        }
        ∷ [];
    use_max = 0;
    que_len = 1;
  };
  keys = record {
    key_cache = pos 101 ∷ pos 102 ∷ pos 0 ∷ [];
    rest_msg_key = pos 0;
    work_msg_key = pos 0;
  };
}

-- The second object of the process fills it.
find_proc-Again_example :
    ((find_proc small_pool 2
        (obj 7)
        (pos 0)
        (pos 0, table)
        (codes "obj")
        (codes "rtsp")
        (process (pos 900) (pos 101) 2)
        table).0
      ≡ some 50)
    × Again small_pool 2
        (omega arith)
        (obj 7)
        (pos 0)
        (codes "obj")
        (codes "rtsp")
        (process (pos 900) (pos 101) 2)
        (record {
          addr = 50;
          node = record { name = process (pos 900) (pos 101) 2; val = 0; arg = none };
        })
        (find_proc small_pool 2
          (obj 7)
          (pos 0)
          (pos 0, table)
          (codes "obj")
          (codes "rtsp")
          (process (pos 900) (pos 101) 2)
          table)
unfolding search_from_queue find_first strncmp_eq
find_proc-Again_example =
    find_proc-Again small_pool 2 (omega arith) (obj 7) (pos 0) (codes "obj") (codes "rtsp")
      (process (pos 900) (pos 101) 2) table (pos 0, table)
      (record {
        addr = 50;
        node = record { name = process (pos 900) (pos 101) 2; val = 0; arg = none };
      })
      refl refl refl refl process-IsLoaded refl

del_ops_by_pid-put2_pid_queue_example :
    ((del_ops_by_pid small_pool
        (pos 901)
        (put2_pid_queue small_pool 10 (process (pos 901) (pos 102) 0) table)).pid_queue
      ≡ table.pid_queue)
    × ((b : Ptr)
        → small_pool.live
            (del_ops_by_pid small_pool
              (pos 901)
              (put2_pid_queue small_pool 10 (process (pos 901) (pos 102) 0) table)).pool
            b
          ≡ small_pool.live [] b)
    × ((del_ops_by_pid small_pool
          (pos 901)
          (put2_pid_queue small_pool 10 (process (pos 901) (pos 102) 0) table)).keys
        ≡ del_msg_key (pos 102) table.keys)
unfolding put2_pid_queue put_to_shm_queue
del_ops_by_pid-put2_pid_queue_example =
    del_ops_by_pid-put2_pid_queue small_pool 10 (process (pos 901) (pos 102) 0) table (refl, tt)
      refl (longer (λ e. absurd (omega arith)))
