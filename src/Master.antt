-- ===== src/Master.antt =====
-- Which slave an object runs on (src/master.cpp): mobjManager, which master_objmanager_thread calls
-- for each object, and detachSlave, which slaveLoad calls for a slave that does not answer.
--
-- `slave` of an object is the address of a node of the slaves' table. delSlave leaves the pointers
-- of the objects as they are: a read through one that names no node any more has the result `none`.
pub mod Assign
pub mod Detach
pub mod Locks
pub mod Deadlock
use aiotc.Prelude.{
  ℕ, ◌+◌, Bool, true, false, not, ◌&&◌, ◌||◌, Option, none, some, List, [], ◌∷◌, map, ℤ, pos,
  minus_one, eq_ℤ, lt_ℤ, ◌==◌, ltb, if◌then◌else◌, ◌>>=◌,
}
use aiotc.Cstring.{Text, codes, strncmp_eq, strstr}
use aiotc.Slab.{Ptr}
use aiotc.Json.{Host, int_at2, del_obj_json}
use aiotc.Queue.{Cell, Queue, find_first, traverse_queue}
use aiotc.Slaves.{SlaveParam, slave_load_max, get_lowest_load_slave}
use aiotc.Obj.{ObjParam}

-- The node that a pointer names.
unfoldable pub node_at : Queue SlaveParam → Ptr → Option (Cell SlaveParam)
node_at slaves a = find_first (λ p. p.addr == a) slaves.nodes

-- slaveIsNormal, at the time `now`: 1, or -1 where the object is to leave the slave, or 0 where it is
-- to wait.
unfoldable pub slave_is_normal : ℕ → SlaveParam → ℤ
slave_is_normal now p =
    if not (p.offline == 0) || not p.system_init || not (lt_ℤ p.load slave_load_max)
    then (if not (p.offline == 0) && ltb now (p.offline + 120) then pos 0 else minus_one)
    else pos 1

-- What mobjManager makes of an object, and the slave that it sends it to (`redirect`).
pub record Managed : Type 0 where
  pub obj : ObjParam
  pub redirect : Option Ptr

-- An object that has a slave to which it is not attached.
unfoldable pub return_to_slave : ℕ → ObjParam → Cell SlaveParam → Managed
unfolding slave_is_normal
return_to_slave now obj p =
    if eq_ℤ (slave_is_normal now p.name) (pos 1)
    then record { obj = record obj { attach_slave = true }; redirect = some p.addr }
    else if eq_ℤ (slave_is_normal now p.name) minus_one
    then record { obj = record obj { slave = none }; redirect = none }
    else record { obj = obj; redirect = none }

-- An object that has no slave, for what getLowestLoadSlave returns.
unfoldable pub send_to_slave : ObjParam → Option (Cell SlaveParam) → Managed
send_to_slave obj none = record { obj = obj; redirect = none }
send_to_slave obj (some p) = record {
  obj = record obj { slave = some p.addr; attach_slave = true };
  redirect = some p.addr;
}

-- mobjManager, up to the test of `redirect`
unfoldable pub manage : ℕ → Queue SlaveParam → ObjParam → Option Managed
unfolding return_to_slave send_to_slave node_at
manage now slaves obj = elim obj.slave [
  | none ↦ some (send_to_slave obj (get_lowest_load_slave slaves))
  | some a ↦ elim obj.attach_slave [
    | true ↦ some (record { obj = obj; redirect = none })
    | false ↦ elim (node_at slaves a) [ none ↦ none | some p ↦ some (return_to_slave now obj p) ]
  ]
]

-- A write of the load of the slave at `a`.
abbrev pub set_load : Ptr → ℤ → Queue SlaveParam → Queue SlaveParam
set_load a load slaves = record slaves {
  nodes =
      map
        (λ p.
          if p.addr == a
          then record p { node = record (p.node) { name = record (p.name) { load = load } } }
          else p)
        slaves.nodes;
}

-- The network and the text behind an object's `originaldata`: what a slave answers to a POST.
module _ (h : Host) (texts : Ptr → Text) (http_post : SlaveParam → Text → Text) where
  -- `if(strstr(ack, "load") != NULL) load = ...`
  unfoldable pub take_load : Ptr → Text → Queue SlaveParam → Queue SlaveParam
  take_load a ack slaves =
      if strstr ack (codes "load") then set_load a (int_at2 h ack "data" "load") slaves else slaves

  -- mobjManager, from the test of `redirect` on
  unfoldable pub redirect_obj : Managed → Queue SlaveParam → Option (Queue SlaveParam)
  unfolding node_at take_load
  redirect_obj m slaves = elim m.redirect [
    | none ↦ some slaves
    | some a ↦ (do
      p ← node_at slaves a
      elim m.obj.originaldata [
        | none ↦ some slaves
        | some text ↦ elim (del_obj_json h (texts text) (some (codes "slave")) none none) [
          | none ↦ some slaves
          | some originaldata ↦ some (take_load a (http_post p.name originaldata) slaves)
        ]
      ])
  ]

  -- mobjManager: the object and the slaves' table.
  unfoldable pub mobj_manager :
      ℕ → Queue SlaveParam → ObjParam → Option (ObjParam × Queue SlaveParam)
  unfolding manage redirect_obj
  mobj_manager now slaves obj = do
    m ← manage now slaves obj
    slaves' ← redirect_obj m slaves
    some (m.obj, slaves')

  -- One pass of master_objmanager_thread over the objects, all at the time `now`.
  unfoldable pub manage_all :
      ℕ → Queue SlaveParam → List (Cell ObjParam) → Option (List (Cell ObjParam) × Queue SlaveParam)
  unfolding mobj_manager
  manage_all now slaves [] = some ([], slaves)
  manage_all now slaves (p ∷ ps) = do
    out ← mobj_manager now slaves p.name
    rest ← manage_all now out.1 ps
    some (record p { node = record (p.node) { name = out.0 } } ∷ rest.0, rest.1)

-- detachObjSlave, which reads the slave of an attached object.
unfoldable pub detach_obj_slave : Queue SlaveParam → Text → ObjParam → ObjParam
unfolding node_at
detach_obj_slave slaves slave_ip obj = elim obj.slave [
  | none ↦ obj
  | some a ↦ elim (node_at slaves a) [
    | none ↦ obj
    | some p ↦
        if obj.attach_slave && strncmp_eq 48 slave_ip p.name.ip
        then record obj { attach_slave = false }
        else obj
  ]
]

-- detachSlave
unfoldable pub detach_slave : Queue SlaveParam → Text → Queue ObjParam → Queue ObjParam
unfolding detach_obj_slave
detach_slave slaves slave_ip objs =
    (traverse_queue
      (λ _ p. (
        false,
        tt,
        record p { node = record (p.node) { name = detach_obj_slave slaves slave_ip p.name } },
      ))
      tt objs).1
