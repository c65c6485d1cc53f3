-- ===== src/Slaves.antt =====
-- The master's table of slave nodes (src/master.cpp, inc/master.h): adding and deleting a slave,
-- the poll of its state, and the choice of the slave with the lowest load.
pub mod Storage
pub mod Choice
use aiotc.Prelude.{
  ℕ, ◌+◌, Bool, true, false, not, ◌&&◌, ◌||◌, Option, none, some, List, [], ◌∷◌, ℤ, pos, eq_ℤ, lt_ℤ,
  is_neg, ltb, leb, ◌==◌, if◌then◌else◌, is_some, length, ◌>>=◌,
}
use aiotc.Cstring.{Text, codes, strcmp_eq, strncpy, strstr}
use aiotc.Slab.{Ptr, Slab}
use aiotc.Json.{Host, int_at, int_at2, str_at}
use aiotc.Queue.{Node, Cell, Queue, Put, put_to_shm_queue, del_from_queue, traverse_queue, free_arg}

-- slaveParam. `online` and `offline` are seconds, or 0.
pub record SlaveParam : Type 0 where
  pub ip : Text
  pub internet_ip : Text
  pub rest_port : ℤ
  pub stream_port : ℤ
  pub system_init : Bool
  pub load : ℤ
  pub online : ℕ
  pub offline : ℕ

abbrev pub slave_load_max : ℤ
slave_load_max = pos 90

-- conditionBySlaveIp
abbrev pub condition_by_slave_ip : Text → Cell SlaveParam → Bool
condition_by_slave_ip slave_ip p = strcmp_eq slave_ip p.name.ip

-- The slave that a request describes, where addSlave finds all its fields. An address of 48 bytes or
-- more leaves no end in its field: the model ends it there, and the code reads on in the fields behind.
unfoldable pub slave_of : Host → Text → Option SlaveParam
slave_of h buf = do
  slave_ip ← str_at h buf "slaveIp"
  internet_ip ← str_at h buf "internetIp"
  let rest_port = int_at h buf "restPort"
  let stream_port = int_at h buf "streamPort"
  if is_neg rest_port || is_neg stream_port
      then none
      else some (record {
        ip = strncpy 48 slave_ip;
        internet_ip = strncpy 48 internet_ip;
        rest_port = rest_port;
        stream_port = stream_port;
        system_init = false;
        load = pos 0;
        online = 0;
        offline = 0;
      })

module _ (s : Slab) where
  -- The pool and the table.
  pub record Table : Type 0 where
    pub pool : s.Pool
    pub slaves : Queue SlaveParam

  -- `if(ret != 0) shmFree(node.arg)`
  after_put : Ptr → Put s.Pool SlaveParam → Table
  after_put arg r =
      if eq_ℤ r.ret (pos 0)
      then record { pool = r.pool; slaves = r.queue }
      else record { pool = s.free r.pool arg; slaves = r.queue }

  -- addSlave, from the block for the request's text on
  unfoldable pub store_slave : ℕ → SlaveParam → Table → Table
  unfolding after_put
  store_slave len slave t =
      let got = s.malloc t.pool (len + 1) in
      elim got.0 [
        | none ↦ record t { pool = got.1 }
        | some arg ↦ after_put arg (
            put_to_shm_queue s got.1 t.slaves (record { name = slave; val = 0; arg = some arg })
              1000)
      ]

  -- addSlave
  unfoldable pub add_slave : Host → Text → Table → Table
  add_slave h buf t = elim (slave_of h buf) [
    | none ↦ t
    | some slave ↦ store_slave (length buf) slave t
  ]

  -- delSlave, where the request names a slave
  unfoldable pub del_slave_ip : Text → Table → Table
  del_slave_ip slave_ip t =
      let out = del_from_queue (condition_by_slave_ip slave_ip) t.slaves in
      elim out.0 [
        | none ↦ record t { slaves = out.1 }
        | some p ↦ record { pool = s.free (free_arg s t.pool p.arg) p.addr; slaves = out.1 }
      ]

  -- delSlave
  unfoldable pub del_slave : Host → Text → Table → Table
  del_slave h buf t = elim (str_at h buf "slaveIp") [ none ↦ t | some ip ↦ del_slave_ip ip t ]

-- What the poll of a slave does besides writing its entry: detachSlave, and a POST of the system's
-- parameters to the slave.
pub record Polled : Type 0 where
  pub slave : SlaveParam
  pub detach : Bool
  pub post_init : Bool

-- slaveLoad, for the answer `ack` (empty where the slave did not answer), the time of the call, and
-- whether the system's parameters are there to be sent.
slave_silent : ℕ → SlaveParam → Polled
slave_silent now p =
    if p.offline == 0
    then record {
      slave = record p { offline = now; system_init = false; online = 0 };
      detach = true;
      post_init = false;
    }
    else record { slave = record p { online = 0 }; detach = false; post_init = false }

slave_answers : Bool → ℤ → ℤ → ℕ → SlaveParam → Polled
slave_answers sys_org_data system_init load now p =
    if eq_ℤ system_init (pos 0)
    then record {
      slave = record p {
        online = if p.online == 0 then now else p.online;
        offline = 0;
        system_init = sys_org_data || p.system_init;
        load = load;
      };
      detach = false;
      post_init = sys_org_data;
    }
    else record { slave = record p { load = load }; detach = false; post_init = false }

unfoldable pub slave_load : Host → Bool → Text → ℕ → SlaveParam → Polled
unfolding slave_silent slave_answers
slave_load h sys_org_data ack now p =
    if strstr ack (codes "systemInit")
    then slave_answers sys_org_data (int_at2 h ack "data" "systemInit")
        (int_at2 h ack "data" "load") now p
    else slave_silent now p

abbrev is_up : SlaveParam → Bool
is_up p = not (p.online == 0) && p.system_init

-- _getlowestLoadSlave: the node that `*ppLowestSlave` points to, if any.
unfoldable pub get_lowest_load_slave_cb :
    Option (Cell SlaveParam) → Cell SlaveParam → Bool × Option (Cell SlaveParam) × Cell SlaveParam
get_lowest_load_slave_cb none p =
    (false, (if is_up p.name && lt_ℤ p.name.load slave_load_max then some p else none), p)
get_lowest_load_slave_cb (some last) p =
    (false, (if lt_ℤ p.name.load last.name.load && is_up p.name then some p else some last), p)

-- getLowestLoadSlave
unfoldable pub get_lowest_load_slave : Queue SlaveParam → Option (Cell SlaveParam)
unfolding get_lowest_load_slave_cb
get_lowest_load_slave slaves = (traverse_queue get_lowest_load_slave_cb none slaves).0
