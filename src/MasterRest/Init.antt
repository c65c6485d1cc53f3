-- ===== src/MasterRest/Init.antt =====
-- What the master reads of the database when it starts (initMasterFromDB of src/master.cpp).
use aiotc.Prelude.{ℕ, Option, none, some, List, [], ◌∷◌}
use aiotc.Cstring.{Text, codes}
use aiotc.Slab.{Slab}
use aiotc.Json.{Host, get_obj_buf_from_json}
use aiotc.Slaves.{add_slave}
use aiotc.Obj.{add_obj}
use aiotc.MasterRest.{MasterState, init_system, with_table, table_of}

module _ (s : Slab) (h : Host) (master_obj_max : ℕ) where
  -- The request that a document was written with.
  abbrev pub original : Text → Option Text
  original doc = get_obj_buf_from_json h doc (some (codes "original")) none none

  -- systemInitCB, slaveInitCB and objInitCB
  unfoldable pub system_init_cb : Text → MasterState s → MasterState s
  unfolding init_system
  system_init_cb doc st = elim (original doc) [ none ↦ st | some buf ↦ init_system s buf st ]

  unfoldable pub slave_init_cb : Text → MasterState s → MasterState s
  slave_init_cb doc st = elim (original doc) [
    | none ↦ st
    | some buf ↦ with_table s st (add_slave s h buf (table_of s st))
  ]

  unfoldable pub obj_init_cb : Text → MasterState s → MasterState s
  obj_init_cb doc st = elim (original doc) [
    | none ↦ st
    | some buf ↦ record st { objs = add_obj s h st.slaves buf master_obj_max st.objs }
  ]

  -- dbTraverse over the documents of a table.
  unfoldable pub db_traverse :
      (Text → MasterState s → MasterState s) → List Text → MasterState s → MasterState s
  db_traverse callback [] st = st
  db_traverse callback (doc ∷ docs) st = db_traverse callback docs (callback doc st)

  -- initMasterFromDB, for the documents of the database's tables
  unfoldable pub init_master_from_db : (Text → List Text) → MasterState s → MasterState s
  unfolding db_traverse system_init_cb slave_init_cb obj_init_cb
  init_master_from_db docs st = db_traverse obj_init_cb (docs (codes "obj")) (
      db_traverse slave_init_cb (docs (codes "slave"))
        (db_traverse system_init_cb (docs (codes "systemInit")) st))
