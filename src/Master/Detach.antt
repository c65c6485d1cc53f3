-- ===== src/Master/Detach.antt =====
-- The objects that detachSlave (src/master.cpp) changes.
use aiotc.Prelude.{
  ◌≡◌, refl, Bool, false, ◌&&◌, none, some, List, [], ◌∷◌, map, arith, All, Option-cases, inl, inr,
  if◌then◌else◌,
}
use aiotc.Cstring.{Text, strncmp_eq}
use aiotc.Queue.{Cell, Queue, visit, traverse_queue}
use aiotc.Slaves.{SlaveParam}
use aiotc.Obj.{ObjParam}
use aiotc.Master.{node_at, detach_obj_slave, detach_slave}

module _ (slaves : Queue SlaveParam) (slave_ip : Text) where
  -- The object is attached to a slave of the table that has the address.
  abbrev pub is_on : ObjParam → Bool
  is_on obj = elim obj.slave [
    | none ↦ false
    | some a ↦ elim (node_at slaves a) [
      | none ↦ false
      | some p ↦ obj.attach_slave && strncmp_eq 48 slave_ip p.name.ip
    ]
  ]

  abbrev pub taken_off : Cell ObjParam → Cell ObjParam
  taken_off p =
      if is_on p.name
      then record p { node = record (p.node) { name = record (p.name) { attach_slave = false } } }
      else p

  off : (obj : ObjParam) → is_on (detach_obj_slave slaves slave_ip obj) ≡ false
  unfolding detach_obj_slave
  off obj = elim (Option-cases obj.slave) [
    | inl e ↦ rw (e, detach_obj_slave, e) refl
    | inr (a, e) ↦ elim (Option-cases (node_at slaves a)) [
      | inl n ↦ ground arith
      | inr (p, n) ↦ ground arith
    ]
  ]

  detached :
      (obj : ObjParam)
      → detach_obj_slave slaves slave_ip obj
        ≡ (if is_on obj then record obj { attach_slave = false } else obj)
  unfolding detach_obj_slave
  detached obj = elim (Option-cases obj.slave) [
    | inl e ↦ ground arith
    | inr (a, e) ↦ elim (Option-cases (node_at slaves a)) [
      | inl n ↦ ground arith
      | inr (p, n) ↦ ground arith
    ]
  ]

  visit_detach : Unit {0} → Cell ObjParam → Bool × Unit {0} × Cell ObjParam
  visit_detach _ p = (
    false,
    tt,
    record p { node = record (p.node) { name = detach_obj_slave slaves slave_ip p.name } },
  )

  visit-map : (ps : List (Cell ObjParam)) → (visit visit_detach tt ps).1 ≡ map taken_off ps
  unfolding visit visit_detach
  visit-map [] = refl
  visit-map (p ∷ ps) = ground (arith, detached p.name, visit-map ps)

  visit-off :
      (ps : List (Cell ObjParam)) → All (λ p. is_on p.name ≡ false) (visit visit_detach tt ps).1
  unfolding visit visit_detach
  visit-off [] = tt
  visit-off (p ∷ ps) = (off p.name, visit-off ps)

  -- detachSlave leaves no object attached to a slave of the table that has the address, and changes
  -- no object but those that were.
  detach_slave-map :
      (objs : Queue ObjParam)
      → All (λ p. is_on p.name ≡ false) (detach_slave slaves slave_ip objs).nodes
        × ((detach_slave slaves slave_ip objs).nodes ≡ map taken_off objs.nodes)
  unfolding detach_slave traverse_queue visit_detach
  detach_slave-map objs = (visit-off objs.nodes, visit-map objs.nodes)
