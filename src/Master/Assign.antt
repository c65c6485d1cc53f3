-- ===== src/Master/Assign.antt =====
-- The outcomes of mobjManager (src/master.cpp).
use aiotc.Prelude.{
  ℕ, ◌+◌, ◌≤◌, ◌≡◌, refl, sym, ap, ◌∙◌, Bool, true, false, not, ◌&&◌, none, some, List, [], ◌∷◌,
  ◌⊎◌, inl, inr, lt_ℤ, ◌==◌, ltb, arith, Bool-cases, Option-cases,
}
use aiotc.Slab.{Ptr}
use aiotc.Queue.{Cell, Queue, find_first}
use aiotc.Slaves.{SlaveParam, slave_load_max, get_lowest_load_slave}
use aiotc.Slaves.Choice.{Among, IsLowest, no_slave, lowest, get_lowest_load_slave-Chooses}
use aiotc.Obj.{ObjParam}
use aiotc.Master.{Managed, node_at, return_to_slave, send_to_slave, manage}

-- A slave that objects stay on.
abbrev pub is_normal : SlaveParam → Bool
is_normal p = (p.offline == 0) && p.system_init && lt_ℤ p.load slave_load_max

-- What a pass makes of one object.
pub data Manages (now : ℕ) (slaves : Queue SlaveParam) (obj : ObjParam) (out : Managed)
    : Type 0 where
  stays : out ≡ record { obj = obj; redirect = none } → Manages now slaves obj out
  leaves :
      (p : Cell SlaveParam)
      → node_at slaves p.addr ≡ some p
      → obj.slave ≡ some p.addr
      → is_normal p.name ≡ false
      → (p.name.offline ≡ 0) ⊎ (p.name.offline + 120 ≤ now)
      → out ≡ record { obj = record obj { slave = none }; redirect = none }
      → Manages now slaves obj out
  returns :
      (p : Cell SlaveParam)
      → node_at slaves p.addr ≡ some p
      → obj.slave ≡ some p.addr
      → is_normal p.name ≡ true
      → out ≡ record { obj = record obj { attach_slave = true }; redirect = some p.addr }
      → Manages now slaves obj out
  moves :
      (p : Cell SlaveParam)
      → Among p slaves.nodes
      → IsLowest p slaves.nodes
      → obj.slave ≡ none
      → out ≡ record {
        obj = record obj { slave = some p.addr; attach_slave = true };
        redirect = some p.addr;
      }
      → Manages now slaves obj out

node_at-addr :
    (a : Ptr) (ps : List (Cell SlaveParam)) (p : Cell SlaveParam)
    → find_first (λ p. p.addr == a) ps ≡ some p
    → p.addr ≡ a
unfolding find_first
node_at-addr a [] p e = absurd (ground arith)
node_at-addr a (x ∷ ps) p e = ground (arith, node_at-addr a ps p)

send_to_slave-Manages :
    (now : ℕ) (slaves : Queue SlaveParam) (obj : ObjParam)
    → obj.slave ≡ none
    → Manages now slaves obj (send_to_slave obj (get_lowest_load_slave slaves))
unfolding send_to_slave
send_to_slave-Manages now slaves obj h = elim (get_lowest_load_slave-Chooses slaves) [
  | no_slave all e ↦ rw e (stays refl)
  | lowest c there low e ↦ rw e (moves c there low h refl)
]

return_to_slave-Manages :
    (now : ℕ) (slaves : Queue SlaveParam) (obj : ObjParam) (p : Cell SlaveParam)
    → obj.slave ≡ some p.addr
    → node_at slaves p.addr ≡ some p
    → Manages now slaves obj (return_to_slave now obj p)
unfolding return_to_slave
return_to_slave-Manages now slaves obj p h at = elim (Bool-cases (is_normal p.name)) [
  | inl t ↦ returns p at h t (ground arith)
  | inr f ↦ elim (Bool-cases (not (p.name.offline == 0) && ltb now (p.name.offline + 120))) [
    | inl w ↦ stays (ground arith)
    | inr g ↦
        leaves p at h f
          (elim (Bool-cases (p.name.offline == 0)) [
            | inl z ↦ inl (ground arith)
            | inr z ↦ inr (ground arith)
          ])
          (ground arith)
  ]
]

-- The pointer that a pass reads through names no node of the table.
abbrev pub IsDangling : Queue SlaveParam → ObjParam → Type 0
IsDangling slaves obj =
    (a : Ptr) × (obj.slave ≡ some a) × (obj.attach_slave ≡ false) × (node_at slaves a ≡ none)

-- A pass of mobjManager over an object reads through a pointer to a deleted slave, or else it leaves
-- the object as it is; or takes it from a slave that is overloaded, not initialised, or offline for
-- 120 seconds at least; or attaches it again to its old slave, which is not offline, is initialised
-- and below the load limit; or attaches an object without a slave to an eligible slave than which
-- no eligible slave has a lower load.
pub manage-Manages :
    (now : ℕ) (slaves : Queue SlaveParam) (obj : ObjParam)
    → ((manage now slaves obj ≡ none) × IsDangling slaves obj)
      ⊎ ((out : Managed) × (manage now slaves obj ≡ some out) × Manages now slaves obj out)
unfolding manage
manage-Manages now slaves obj = elim (Option-cases obj.slave) [
  | inl e ↦ inr (
    send_to_slave obj (get_lowest_load_slave slaves),
    ground arith,
    send_to_slave-Manages now slaves obj e,
  )
  | inr (a, e) ↦ elim (Bool-cases obj.attach_slave) [
    | inl t ↦ inr (record { obj = obj; redirect = none }, ground arith, stays refl)
    | inr f ↦ elim (Option-cases (node_at slaves a)) [
      | inl n ↦ inl (ground arith, (a, e, f, n))
      | inr (p, at) ↦
          let same : p.addr ≡ a = node_at-addr a slaves.nodes p at in
          inr (
            return_to_slave now obj p,
            ground arith,
            return_to_slave-Manages now slaves obj p (e ∙ ap some (sym same))
                (ap (node_at slaves) same ∙ at),
          )
    ]
  ]
]
