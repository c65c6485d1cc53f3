-- ===== src/Obj/Adds.antt =====
-- The outcomes of addObj (src/misc.cpp).
use aiotc.Prelude.{
  ℕ, ◌+◌, ◌≤◌, ◌<◌, ◌≡◌, refl, true, false, Option, none, some, inl, inr, Bool-cases, Option-cases,
}
use aiotc.Cstring.{codes, strcmp_eq, strncpy}
use aiotc.Slab.{Ptr, Slab}
use aiotc.Queue.Puts.{put-Puts, put_full, full, no_memory, stored}
use aiotc.Queue.{Node, append_node, node_size, put_to_shm_queue}
use aiotc.Obj.{
  TaskParams, ObjParam, Request, Objs, task_size, camera_size, write, init_obj_arg, after_put,
  queue_obj, store_obj, add_request,
}

module _ (s : Slab) (max len : ℕ) (q : Request) (t : TaskParams × Option Ptr) (st : Objs s) where
  -- The pool after one, two, three and four calls of the allocator.
  abbrev pub pool1 : s.Pool
  pool1 = (s.malloc st.pool task_size).1

  abbrev pub pool2 : s.Pool
  pool2 = (s.malloc pool1 (len + 1)).1

  abbrev pub pool3 : s.Pool
  pool3 = (s.malloc pool2 camera_size).1

  abbrev pub pool4 : s.Pool
  pool4 = (s.malloc pool3 node_size).1

  abbrev pub obj_of : Ptr → Ptr → Ptr → ObjParam
  obj_of a1 a2 a3 = record {
    id = q.id;
    name = strncpy 32 q.name;
    kind = strncpy 16 q.kind;
    subtype = strncpy 16 q.subtype;
    attach_slave = false;
    slave = t.1;
    task = some a1;
    obj_arg = some a3;
    originaldata = some a2;
  }

  -- The object stands in the queue with its three blocks and its node's; or the queue is full, and
  -- the blocks of the task and of the camera stay behind; or an earlier step failed.
  pub data Adds (st' : Objs s) : Type 0 where
    failed : st'.objs ≡ st.objs → Adds st'
    queue_full :
        (a1 a2 a3 : Ptr)
        → max ≤ st.objs.que_len
        → (s.malloc st.pool task_size).0 ≡ some a1
        → (s.malloc pool1 (len + 1)).0 ≡ some a2
        → (s.malloc pool2 camera_size).0 ≡ some a3
        → st' ≡ record { pool = s.free pool3 a2; objs = st.objs; tasks = write st.tasks a1 t.0 }
        → Adds st'
    kept :
        (a1 a2 a3 x : Ptr)
        → st.objs.que_len < max
        → (s.malloc st.pool task_size).0 ≡ some a1
        → (s.malloc pool1 (len + 1)).0 ≡ some a2
        → (s.malloc pool2 camera_size).0 ≡ some a3
        → (s.malloc pool3 node_size).0 ≡ some x
        → st' ≡ record {
          pool = pool4;
          objs =
              append_node st.objs (record {
                addr = x;
                node = record { name = obj_of a1 a2 a3; val = 0; arg = none };
              });
          tasks = write st.tasks a1 t.0;
        }
        → Adds st'

  put_obj :
      (a1 a2 a3 : Ptr)
      → (s.malloc st.pool task_size).0 ≡ some a1
      → (s.malloc pool1 (len + 1)).0 ≡ some a2
      → (s.malloc pool2 camera_size).0 ≡ some a3
      → Adds (
          after_put s a2 (write st.tasks a1 t.0) (
            put_to_shm_queue s pool3 st.objs
              (record { name = obj_of a1 a2 a3; val = 0; arg = none })
              max))
  unfolding after_put
  put_obj a1 a2 a3 e1 e2 e3 =
      let n : Node ObjParam = record { name = obj_of a1 a2 a3; val = 0; arg = none } in
      elim (put-Puts s pool3 st.objs n max) [
        | full le r ↦ rw r (queue_full a1 a2 a3 le e1 e2 e3 refl)
        | no_memory m r ↦ rw r (failed refl)
        | stored x lt m r ↦ rw r (kept a1 a2 a3 x lt e1 e2 e3 m refl)
      ]

  camera_arg :
      strcmp_eq q.kind (codes "camera") ≡ true
      → init_obj_arg s q.kind pool2 ≡ s.malloc pool2 camera_size
  unfolding init_obj_arg
  camera_arg c = rw c refl

  other_arg :
      strcmp_eq q.kind (codes "camera") ≡ false → init_obj_arg s q.kind pool2 ≡ (none, pool2)
  unfolding init_obj_arg
  other_arg c = rw c refl

  store_obj-Adds :
      (a1 a2 : Ptr)
      → (s.malloc st.pool task_size).0 ≡ some a1
      → (s.malloc pool1 (len + 1)).0 ≡ some a2
      → Adds (store_obj s max q t a1 a2 pool2 st)
  unfolding store_obj queue_obj
  store_obj-Adds a1 a2 e1 e2 = elim (Bool-cases (strcmp_eq q.kind (codes "camera"))) [
    | inr f ↦ rw (other_arg f) (failed refl)
    | inl c ↦ rw (camera_arg c) (elim (Option-cases (s.malloc pool2 camera_size).0) [
      | inl e ↦ rw (e, queue_obj) (failed refl)
      | inr (a3, e3) ↦ rw (e3, queue_obj) (put_obj a1 a2 a3 e1 e2 e3)
    ])
  ]

  pub add_request-Adds : Adds (add_request s max len q t st)
  unfolding add_request
  add_request-Adds = elim (Option-cases (s.malloc st.pool task_size).0) [
    | inl e ↦ rw (e, add_request) (failed refl)
    | inr (a1, e1) ↦ elim (Option-cases (s.malloc pool1 (len + 1)).0) [
      | inl e ↦ rw (e1, e, add_request) (failed refl)
      | inr (a2, e2) ↦ rw (e1, e2, add_request) (store_obj-Adds a1 a2 e1 e2)
    ]
  ]

  pub add_request-full :
      max ≤ st.objs.que_len
      → strcmp_eq q.kind (codes "camera") ≡ true
      → (a1 a2 a3 : Ptr) → (s.malloc st.pool task_size).0 ≡ some a1
      → (s.malloc pool1 (len + 1)).0 ≡ some a2
      → (s.malloc pool2 camera_size).0 ≡ some a3
      → add_request s max len q t st
        ≡ record { pool = s.free pool3 a2; objs = st.objs; tasks = write st.tasks a1 t.0 }
  unfolding add_request store_obj queue_obj after_put
  add_request-full le c a1 a2 a3 e1 e2 e3 =
      rw (e1, e2, add_request, camera_arg c, e3, queue_obj, put_full s pool3 st.objs _ max le) refl
