-- ===== src/Obj/Undo.antt =====
-- addObj followed by delObj, and addObj on a full queue (src/misc.cpp).
use aiotc.Prelude.{
  ℕ, ◌+◌, ◌≤◌, ◌≡◌, ◌≢◌, refl, ap, true, false, ◌||◌, Option, none, some, arith, ◌==◌, All, ℤ, eq_ℤ,
  eq_ℤ_iff,
}
use aiotc.Cstring.{codes, strcmp_eq}
use aiotc.Slab.{Ptr, Slab}
use aiotc.Queue.Delete.{del_from_queue-append_node}
use aiotc.Queue.{Cell, empty, append_node, node_size, free_shm_queue, free_nodes}
use aiotc.Obj.{
  TaskParams, ObjParam, Request, Objs, task_size, camera_size, write, condition_by_obj_id,
  add_request, del_obj_id, drop_obj, free_task,
}
use aiotc.Obj.Adds.{
  failed, queue_full, kept, add_request-Adds, add_request-full, pool1, pool2, pool3, pool4, obj_of,
}

module _ (s : Slab) where
  -- Four blocks, taken one after the other and all given back, leave the blocks as they were.
  four_back :
      (p : s.Pool) (n1 n2 n3 n4 : ℕ) (a1 a2 a3 a4 b : Ptr)
      → (s.malloc p n1).0 ≡ some a1
      → (s.malloc (s.malloc p n1).1 n2).0 ≡ some a2
      → (s.malloc (s.malloc (s.malloc p n1).1 n2).1 n3).0 ≡ some a3
      → (s.malloc (s.malloc (s.malloc (s.malloc p n1).1 n2).1 n3).1 n4).0 ≡ some a4
      → s.live
          (s.free
            (s.free
              (s.free
                (s.free (s.malloc (s.malloc (s.malloc (s.malloc p n1).1 n2).1 n3).1 n4).1 a1)
                a2)
              a3)
            a4)
          b
        ≡ s.live p b
  four_back p n1 n2 n3 n4 a1 a2 a3 a4 b e1 e2 e3 e4 =
      let p1 = (s.malloc p n1).1 in
      let p2 = (s.malloc p1 n2).1 in
      let p3 = (s.malloc p2 n3).1 in
      let p4 = (s.malloc p3 n4).1 in
      rw
        (
          s.free_live (s.free (s.free (s.free p4 a1) a2) a3) a4 b,
          s.free_live (s.free (s.free p4 a1) a2) a3 b,
          s.free_live (s.free p4 a1) a2 b,
          s.free_live p4 a1 b,
          s.malloc_live p3 n4 a4 b e4,
          s.malloc_live p2 n3 a3 b e3,
          s.malloc_live p1 n2 a2 b e2,
          s.malloc_live p n1 a1 b e1,
        )
        (ground (
          arith,
          s.malloc_live p2 n3 a3 b e3,
          s.malloc_live p1 n2 a2 b e2,
          s.malloc_live p n1 a1 b e1,
          s.malloc_fresh p3 n4 a4 e4,
          s.malloc_fresh p2 n3 a3 e3,
          s.malloc_fresh p1 n2 a2 e2,
          s.malloc_fresh p n1 a1 e1,
        ))

  -- A task without algorithms owns its own block only.
  free_task-empty :
      (tasks : Ptr → TaskParams) (pool : s.Pool) (a : Ptr)
      → (tasks a).alg_queue ≡ empty
      → free_task s tasks pool (some a) ≡ s.free pool a
  unfolding free_task free_shm_queue free_nodes
  free_task-empty tasks pool a e = rw (e, free_task) refl

module _ (s : Slab) (max len : ℕ) (q : Request) (t : TaskParams × Option Ptr) (st : Objs s) where
  -- No object has the request's id.
  abbrev IsNew : Type 0
  IsNew = All (λ p. condition_by_obj_id q.id p ≡ false) st.objs.nodes

  same_id : (id : ℤ) → eq_ℤ id id ≡ true
  same_id id = ground (arith, eq_ℤ_iff id id)

  del_obj_id-kept :
      (a1 a2 a3 x : Ptr)
      → IsNew
      → t.0.alg_queue ≡ empty
      → del_obj_id s q.id (record {
        pool = pool4 s max len q t st;
        objs = append_node st.objs (record {
          addr = x;
          node = record { name = obj_of s max len q t st a1 a2 a3; val = 0; arg = none };
        });
        tasks = write st.tasks a1 t.0;
      })
        ≡ record {
          pool = s.free (s.free (s.free (s.free (pool4 s max len q t st) a1) a2) a3) x;
          objs = st.objs;
          tasks = write st.tasks a1 t.0;
        }
  unfolding del_obj_id drop_obj
  del_obj_id-kept a1 a2 a3 x new none_run =
      let c : Cell ObjParam = record {
        addr = x;
        node = record { name = obj_of s max len q t st a1 a2 a3; val = 0; arg = none };
      } in
      rw
        (
          del_from_queue-append_node (condition_by_obj_id q.id) st.objs c new (same_id q.id),
          free_task-empty s (write st.tasks a1 t.0) (pool4 s max len q t st) a1 (ground arith),
        )
        refl

  -- An object that addObj took into the queue, with no algorithm on its task and an id that no
  -- object of the queue has, is deleted again by delObj: the queue and the set of blocks handed out
  -- are as they were before addObj.
  pub del_obj_id-add_request :
      IsNew
      → t.0.alg_queue ≡ empty
      → (add_request s max len q t st).objs ≢ st.objs
      → ((del_obj_id s q.id (add_request s max len q t st)).objs ≡ st.objs)
        × ((b : Ptr)
            → s.live (del_obj_id s q.id (add_request s max len q t st)).pool b ≡ s.live st.pool b)
  del_obj_id-add_request new none_run stored = elim (add_request-Adds s max len q t st) [
    | failed e ↦ absurd (stored e)
    | queue_full a1 a2 a3 le e1 e2 e3 r ↦ absurd (stored (ap (λ st'. st'.objs) r))
    | kept a1 a2 a3 x lt e1 e2 e3 e4 r ↦
        rw (r, del_obj_id-kept a1 a2 a3 x new none_run)
          (
            refl,
            λ b.
                four_back s st.pool task_size (len + 1) camera_size node_size a1 a2 a3 x b e1 e2 e3
                  e4,
          )
  ]

  -- Where the queue is full and the allocator grants the three blocks of a camera, addObj leaves the
  -- queue as it was, and of the blocks that it took those of the task and of the camera stay handed
  -- out: no object of the queue names them.
  pub add_request-leak :
      max ≤ st.objs.que_len
      → strcmp_eq q.kind (codes "camera") ≡ true
      → (a1 a2 a3 : Ptr) → (s.malloc st.pool task_size).0 ≡ some a1
      → (s.malloc (pool1 s max len q t st) (len + 1)).0 ≡ some a2
      → (s.malloc (pool2 s max len q t st) camera_size).0 ≡ some a3
      → ((add_request s max len q t st).objs ≡ st.objs)
        × ((b : Ptr)
            → s.live (add_request s max len q t st).pool b
              ≡ (b == a1 || b == a3 || s.live st.pool b))
  add_request-leak le c a1 a2 a3 e1 e2 e3 =
      rw (add_request-full s max len q t st le c a1 a2 a3 e1 e2 e3) (
        refl,
        λ b. ground (
          arith,
          s.free_live (pool3 s max len q t st) a2 b,
          s.malloc_live (pool2 s max len q t st) camera_size a3 b e3,
          s.malloc_live (pool1 s max len q t st) (len + 1) a2 b e2,
          s.malloc_live st.pool task_size a1 b e1,
          s.malloc_live (pool1 s max len q t st) (len + 1) a2 a3 e2,
          s.malloc_live st.pool task_size a1 a2 e1,
          s.malloc_fresh (pool2 s max len q t st) camera_size a3 e3,
          s.malloc_fresh (pool1 s max len q t st) (len + 1) a2 e2,
          s.malloc_fresh st.pool task_size a1 e1,
        ),
      )
