-- ===== src/MasterRest/Changes.antt =====
-- The requests that start and stop a task of an object, at the master (src/master.cpp) and at a
-- slave (src/rest.cpp).
use aiotc.Prelude.{◌≡◌, refl, arith, true, none, some, List, [], ◌∷◌, ℤ}
use aiotc.Cstring.{Text, codes, strcmp_eq}
use aiotc.Slab.{Ptr, Slab}
use aiotc.Queue.{Cell, Queue, search_from_queue}
use aiotc.Slaves.{SlaveParam}
use aiotc.Obj.{ObjParam, TaskParams, Objs, condition_by_obj_id, write}
use aiotc.Master.{node_at}
use aiotc.Rest
use aiotc.Rest.{RestState, RestConfig, rest_url_map, registered, on_task}
use aiotc.MasterRest
use aiotc.MasterRest.{
  MasterState, Outcome, Selector, DbCall, Post, address, http_post_slave, post_for, forward,
  master_url_map,
}

-- The requests that change a field of a task.
pub data TaskChange : Type 0 where
  start_stream stop_stream start_preview stop_preview : TaskChange
  start_record stop_record start_capture stop_capture : TaskChange

abbrev pub path_of : TaskChange → Text
path_of start_stream = codes "/obj/stream/start"
path_of stop_stream = codes "/obj/stream/stop"
path_of start_preview = codes "/obj/preview/start"
path_of stop_preview = codes "/obj/preview/stop"
path_of start_record = codes "/obj/record/start"
path_of stop_record = codes "/obj/record/stop"
path_of start_capture = codes "/obj/capture/start"
path_of stop_capture = codes "/obj/capture/stop"

abbrev pub at_slave : TaskChange → Rest.Handler
at_slave start_stream = Rest.stream_start
at_slave stop_stream = Rest.stream_stop
at_slave start_preview = Rest.preview_start
at_slave stop_preview = Rest.preview_stop
at_slave start_record = Rest.record_start
at_slave stop_record = Rest.record_stop
at_slave start_capture = Rest.capture_start
at_slave stop_capture = Rest.capture_stop

abbrev pub at_master : TaskChange → MasterRest.Handler
at_master start_stream = MasterRest.stream_start
at_master stop_stream = MasterRest.stream_stop
at_master start_preview = MasterRest.preview_start
at_master stop_preview = MasterRest.preview_stop
at_master start_record = MasterRest.record_start
at_master stop_record = MasterRest.record_stop
at_master start_capture = MasterRest.capture_start
at_master stop_capture = MasterRest.capture_stop

-- Both maps have the handler of a change under the same path.
pub at_path :
    (c : TaskChange)
    → (registered master_url_map (path_of c) ≡ some (at_master c))
      × (registered rest_url_map (path_of c) ≡ some (at_slave c))
unfolding registered master_url_map rest_url_map strcmp_eq
at_path start_stream = (refl, refl)
at_path stop_stream = (refl, refl)
at_path start_preview = (refl, refl)
at_path stop_preview = (refl, refl)
at_path start_record = (refl, refl)
at_path stop_record = (refl, refl)
at_path start_capture = (refl, refl)
at_path stop_capture = (refl, refl)

-- Two tasks with the same four requested fields.
pub record IsSame (t t' : TaskParams) : Type 0 where
  pub stream : t.livestream ≡ t'.livestream
  pub recorded : t.recording ≡ t'.recording
  pub captured : t.capture ≡ t'.capture
  pub shown : t.preview ≡ t'.preview

pub write-same : (mem : Ptr → TaskParams) (a : Ptr) (t : TaskParams) → write mem a t a ≡ t
write-same mem a t = ground arith

module _ (s : Slab) where
  -- The object of an id is found in a queue, and its task stands at `m`.
  pub record HasTask (id : ℤ) (st : Objs s) (p : Cell ObjParam) (m : Ptr) : Type 0 where
    pub found : search_from_queue (condition_by_obj_id id) st.objs ≡ some p
    pub at_task : p.name.task ≡ some m

  -- The object is attached to the slave in the cell `c`.
  pub record IsAttached (slaves : Queue SlaveParam) (obj : ObjParam) (c : Cell SlaveParam)
      : Type 0 where
    pub ptr : Ptr
    pub names : obj.slave ≡ some ptr
    pub attached : obj.attach_slave ≡ true
    pub cell : node_at slaves ptr ≡ some c

  pub on_task-write :
      (f : TaskParams → TaskParams) (id : ℤ) (st : Objs s) (p : Cell ObjParam) (m : Ptr)
      → HasTask id st p m
      → on_task s f id st ≡ record st { tasks = write st.tasks m (f (st.tasks m)) }
  unfolding on_task
  on_task-write f id st p m h = rw (h.found, h.at_task, on_task) refl

  pub http_post_slave-one :
      (slaves : Queue SlaveParam) (path buf : Text) (obj : ObjParam) (c : Cell SlaveParam)
      → IsAttached slaves obj c
      → http_post_slave slaves path buf obj
        ≡ some (record { url = address c.name path; body = buf } ∷ [])
  unfolding http_post_slave
  http_post_slave-one slaves path buf obj c h =
      rw (h.names, h.attached, h.cell, http_post_slave) refl

  pub forward-one :
      (path buf : Text) (id : ℤ) (f : TaskParams → TaskParams) (db : List DbCall)
      (st : MasterState s) (p : Cell ObjParam) (m : Ptr) (c : Cell SlaveParam)
      → HasTask id st.objs p m
      → IsAttached st.slaves p.name c
      → forward s path buf id f db st
        ≡ some (record {
          master = record st {
            objs = record (st.objs) { tasks = write st.objs.tasks m (f (st.objs.tasks m)) };
          };
          posts = record { url = address c.name path; body = buf } ∷ [];
          db = db;
          body = none;
        })
  unfolding forward post_for
  forward-one path buf id f db st p m c h a =
      rw
        (
          h.found,
          post_for,
          http_post_slave-one st.slaves path buf p.name c a,
          on_task-write f id st.objs p m h,
        )
        refl
