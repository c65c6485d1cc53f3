-- ===== src/MasterRest/Forward.antt =====
-- A request to start or stop a task, at the master (src/master.cpp) and at the slave that the
-- master forwards it to (src/rest.cpp).
use aiotc.Prelude.{
  ℕ, ◌≡◌, ◌⊎◌, ◌∙◌, refl, Bool, true, Option, none, some, List, [], ◌∷◌, is_neg, pos, Bool-cases,
  Option-cases, inl, inr,
}
use aiotc.Cstring.{Text, codes}
use aiotc.Slab.{Ptr, Slab}
use aiotc.Json.{Host, int_at, str_at}
use aiotc.Queue.{Cell, Queue}
use aiotc.Slaves.{SlaveParam}
use aiotc.Obj.{ObjParam, TaskParams, write}
use aiotc.Rest
use aiotc.Rest.Handlers as SlaveSide
use aiotc.Rest.{RestState, RestConfig, rest_url_map, registered, on_task}
use aiotc.MasterRest
use aiotc.MasterRest.{
  MasterState, Outcome, Selector, DbCall, Post, address, http_post_slave, post_for, forward,
  master_url_map,
}
use aiotc.MasterRest.Handlers
use aiotc.Rest.Body.{request_text, request_text-again}
use aiotc.MasterRest.Changes.{
  TaskChange, start_stream, stop_stream, start_preview, stop_preview, start_record, stop_record,
  start_capture, stop_capture, path_of, at_slave, at_master, at_path, IsSame, HasTask, IsAttached,
  on_task-write, forward-one, write-same,
}

-- A master and a slave with the object of a request: at the master it has the task `m` and is
-- attached to the slave `c`, at the slave it has the task `m'`, with the same requested fields.
module _ (s s' : Slab) (h : Host) (db_exsit : Text → Text → Selector → Bool) (master_obj_max : ℕ)
    (config : RestConfig) (slaves' : Queue SlaveParam) (st : MasterState s) (st' : RestState s')
    (p p' : Cell ObjParam) (m m' : Ptr) (c : Cell SlaveParam) where
  abbrev serve_master : TaskChange → Text → Option (Outcome s)
  serve_master change buf = Handlers.serve s h db_exsit master_obj_max (at_master change) buf st

  abbrev serve_slave : TaskChange → Text → Option (RestState s' × Option Text)
  serve_slave change buf = SlaveSide.serve s' h config slaves' (at_slave change) buf st'

  -- The master has one POST, to the slave's address and the path under which the slave has the
  -- handler of the same change, and the slave's handler leaves the same fields; or nothing happens, to
  -- a preview without an id or a type.
  pub data Forwards (change : TaskChange) (buf : Text) : Type 0 where
    rejected :
        change ≡ start_preview
        → (str_at h buf "type" ≡ none) ⊎ (is_neg (int_at h buf "id") ≡ true)
        → serve_master change buf ≡ some (record { master = st; posts = []; db = []; body = none })
        → Forwards change buf
    forwarded :
        (out : Outcome s) (out' : RestState s')
        → serve_master change buf ≡ some out
        → out.posts ≡ record { url = address c.name (path_of change); body = buf } ∷ []
        → registered rest_url_map (path_of change) ≡ some (at_slave change)
        → serve_slave change (request_text buf) ≡ some (out', none)
        → IsSame (out.master.objs.tasks m) (out'.objs.tasks m')
        → Forwards change buf

  module _ (body : Text) (at : HasTask s (int_at h (request_text body) "id") st.objs p m)
      (at' : HasTask s' (int_at h (request_text body) "id") st'.objs p' m')
      (a : IsAttached s st.slaves p.name c)
      (same : IsSame (st.objs.tasks m) (st'.objs.tasks m')) where
    abbrev buf : Text
    buf = request_text body

    abbrev preview_update : Text → List DbCall
    preview_update kind =
        MasterRest.update (codes "obj") (codes "$set") (codes "original.id")
          (MasterRest.by_int (int_at h buf "id")) (codes "original.task.preview")
          (MasterRest.by_str kind)
        ∷ []

    change-Forwards :
        (change : TaskChange) (f : TaskParams → TaskParams) (db : List DbCall)
        → IsSame (f (st.objs.tasks m)) (f (st'.objs.tasks m'))
        → serve_master change buf ≡ forward s (path_of change) buf (int_at h buf "id") f db st
        → serve_slave change buf ≡ Rest.silent s' st' (on_task s' f (int_at h buf "id") st'.objs)
        → Forwards change buf
    change-Forwards change f db kept e e' =
        forwarded
          (record {
            master = record st {
              objs = record (st.objs) { tasks = write st.objs.tasks m (f (st.objs.tasks m)) };
            };
            posts = record { url = address c.name (path_of change); body = buf } ∷ [];
            db = db;
            body = none;
          })
          (record st' {
            objs = record (st'.objs) { tasks = write st'.objs.tasks m' (f (st'.objs.tasks m')) };
          })
          (e ∙ forward-one s (path_of change) buf (int_at h buf "id") f db st p m c at a) refl
          (at_path change).1
          (rw
            (request_text-again body, e', on_task-write s' f (int_at h buf "id") st'.objs p' m' at')
            refl)
          (rw
            (
              write-same st.objs.tasks m (f (st.objs.tasks m)),
              write-same st'.objs.tasks m' (f (st'.objs.tasks m')),
            )
            kept)

    -- A master whose object is attached to a slave, and that slave, which has an object with the same
    -- id: a request to start or stop the stream, the preview, the record or the capture, as the
    -- handler of the master is given it, is POSTed to the slave's address under the path of the slave's
    -- handler for the same change, the slave's handler is given the same text, and afterwards the
    -- requested fields of the two tasks agree if they agreed before; or it is a request to start a
    -- preview without a type or an id, and nothing is posted or changed.
    pub serve-Forwards : (change : TaskChange) → Forwards change buf
    unfolding Handlers.serve Handlers.request_stream_start Handlers.request_stream_stop
        Handlers.request_preview_start Handlers.request_preview_stop Handlers.request_record_start
        Handlers.request_record_stop Handlers.request_capture_start Handlers.request_capture_stop
        SlaveSide.serve SlaveSide.request_stream_start SlaveSide.request_stream_stop
        SlaveSide.request_preview_start SlaveSide.request_preview_stop
        SlaveSide.request_record_start SlaveSide.request_record_stop SlaveSide.request_capture_start
        SlaveSide.request_capture_stop
    serve-Forwards start_stream =
        change-Forwards start_stream (Rest.set_stream (pos 1))
          (MasterRest.db_update_int_by_id h buf (codes "original.task.stream") (pos 1))
          (record {
            stream = refl;
            recorded = same.recorded;
            captured = same.captured;
            shown = same.shown;
          })
          refl refl
    serve-Forwards stop_stream =
        change-Forwards stop_stream (Rest.set_stream (pos 0))
          (MasterRest.db_update_int_by_id h buf (codes "original.task.stream") (pos 0))
          (record {
            stream = refl;
            recorded = same.recorded;
            captured = same.captured;
            shown = same.shown;
          })
          refl refl
    serve-Forwards start_record =
        change-Forwards start_record (Rest.set_record (pos 1))
          (MasterRest.db_update_int_by_id h buf (codes "original.task.record") (pos 1))
          (record {
            stream = same.stream;
            recorded = refl;
            captured = same.captured;
            shown = same.shown;
          })
          refl refl
    serve-Forwards stop_record =
        change-Forwards stop_record (Rest.set_record (pos 0))
          (MasterRest.db_update_int_by_id h buf (codes "original.task.record") (pos 0))
          (record {
            stream = same.stream;
            recorded = refl;
            captured = same.captured;
            shown = same.shown;
          })
          refl refl
    serve-Forwards start_capture =
        change-Forwards start_capture (Rest.set_capture (pos 1))
          (MasterRest.db_update_int_by_id h buf (codes "original.task.capture") (pos 1))
          (record {
            stream = same.stream;
            recorded = same.recorded;
            captured = refl;
            shown = same.shown;
          })
          refl refl
    serve-Forwards stop_capture =
        change-Forwards stop_capture (Rest.set_capture (pos 0))
          (MasterRest.db_update_int_by_id h buf (codes "original.task.capture") (pos 0))
          (record {
            stream = same.stream;
            recorded = same.recorded;
            captured = refl;
            shown = same.shown;
          })
          refl refl
    serve-Forwards stop_preview =
        change-Forwards stop_preview (Rest.set_preview []) (preview_update [])
          (record {
            stream = same.stream;
            recorded = same.recorded;
            captured = same.captured;
            shown = refl;
          })
          refl refl
    serve-Forwards start_preview = elim (Option-cases (str_at h buf "type")) [
      | inl none_given ↦
          rejected refl (inl none_given) (rw (none_given, Handlers.request_preview_start) refl)
      | inr (kind, e) ↦ elim (Bool-cases (is_neg (int_at h buf "id"))) [
        | inl neg ↦ rejected refl (inr neg) (rw (e, Handlers.request_preview_start, neg) refl)
        | inr ok ↦
            change-Forwards start_preview (Rest.set_preview kind) (preview_update kind)
              (record {
                stream = same.stream;
                recorded = same.recorded;
                captured = same.captured;
                shown = refl;
              })
              (rw (e, Handlers.request_preview_start, ok) refl)
              (rw (e, SlaveSide.request_preview_start, ok) refl)
      ]
    ]
