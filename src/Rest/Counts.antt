-- ===== src/Rest/Counts.antt =====
-- What the slave's handlers (src/rest.cpp) leave of the count of its objects.
use aiotc.Prelude.{
  ℕ, ◌≡◌, refl, Option, none, some, arith, ℤ, inl, inr, Option-cases, length, length-append,
}
use aiotc.Cstring.{Text}
use aiotc.Slab.{Ptr, Slab}
use aiotc.Json.{Host, int_at}
use aiotc.Queue.{Cell, Queue, search_from_queue}
use aiotc.Queue.Length.{IsCounted, del-IsCounted}
use aiotc.Slaves.{SlaveParam}
use aiotc.Obj.{
  AlgParams, ObjParam, TaskParams, Request, Objs, add_obj, del_obj, del_obj_id, drop_obj,
  condition_by_obj_id, request_of, add_request,
}
use aiotc.Obj.Adds.{add_request-Adds, failed, queue_full, kept}
use aiotc.Obj.Algs.{add_alg, del_alg, put_alg, drop_alg}
use aiotc.Rest.{on_task}

module _ (s : Slab) (max : ℕ) where
  add_request-IsCounted :
      (len : ℕ) (q : Request) (t : TaskParams × Option Ptr) (st : Objs s)
      → IsCounted max st.objs
      → IsCounted max (add_request s max len q t st).objs
  add_request-IsCounted len q t st h = elim (add_request-Adds s max len q t st) [
    | failed e ↦ rw e h
    | queue_full a1 a2 a3 le e1 e2 e3 r ↦ rw r h
    | kept a1 a2 a3 x lt e1 e2 e3 e4 r ↦
        rw r (omega (arith, length-append {0} st.objs.nodes, h.exact))
  ]

  pub add_obj-IsCounted :
      (h : Host) (slaves : Queue SlaveParam) (buf : Text) (st : Objs s)
      → IsCounted max st.objs
      → IsCounted max (add_obj s h slaves buf max st).objs
  unfolding add_obj
  add_obj-IsCounted h slaves buf st c = elim (Option-cases (request_of h buf)) [
    | inl e ↦ rw (e, add_obj) c
    | inr (q, e) ↦ rw (e, add_obj) (add_request-IsCounted (length buf) q _ st c)
  ]

  drop_obj-objs :
      (st : Objs s) (out : Option (Cell ObjParam) × Queue ObjParam)
      → (drop_obj s st out).objs ≡ out.1
  unfolding drop_obj
  drop_obj-objs st (none, objs) = refl
  drop_obj-objs st (some p, objs) = refl

  pub del_obj-IsCounted :
      (h : Host) (buf : Text) (st : Objs s)
      → IsCounted max st.objs
      → IsCounted max (del_obj s h buf st).objs
  unfolding del_obj del_obj_id
  del_obj-IsCounted h buf st c =
      rw (drop_obj-objs st _)
        (del-IsCounted s max st.objs (condition_by_obj_id (int_at h buf "id")) c)

  pub on_task-objs :
      (f : TaskParams → TaskParams) (id : ℤ) (st : Objs s) → (on_task s f id st).objs ≡ st.objs
  unfolding on_task
  on_task-objs f id st = elim (Option-cases (search_from_queue (condition_by_obj_id id) st.objs)) [
    | inl e ↦ rw (e, on_task) refl
    | inr (p, e) ↦ elim (Option-cases p.name.task) [
      | inl e' ↦ rw (e, e', on_task) refl
      | inr (a, e') ↦ rw (e, e', on_task) refl
    ]
  ]

  drop_alg-objs :
      (a : Ptr) (st : Objs s) (out : Option (Cell AlgParams) × Queue AlgParams)
      → (drop_alg s a st out).objs ≡ st.objs
  unfolding drop_alg
  drop_alg-objs a st (none, algs) = refl
  drop_alg-objs a st (some p, algs) = refl

  pub add_alg-objs : (id : ℤ) (name : Text) (st : Objs s) → (add_alg s id name st).objs ≡ st.objs
  unfolding add_alg put_alg
  add_alg-objs id name st =
      elim (Option-cases (search_from_queue (condition_by_obj_id id) st.objs)) [
        | inl e ↦ rw (e, add_alg) refl
        | inr (p, e) ↦ elim (Option-cases p.name.task) [
          | inl e' ↦ rw (e, e', add_alg) refl
          | inr (a, e') ↦ rw (e, e', add_alg) refl
        ]
      ]

  pub del_alg-objs : (id : ℤ) (name : Text) (st : Objs s) → (del_alg s id name st).objs ≡ st.objs
  unfolding del_alg
  del_alg-objs id name st =
      elim (Option-cases (search_from_queue (condition_by_obj_id id) st.objs)) [
        | inl e ↦ rw (e, del_alg) refl
        | inr (p, e) ↦ elim (Option-cases p.name.task) [
          | inl e' ↦ rw (e, e', del_alg) refl
          | inr (a, e') ↦ rw (e, e', del_alg) (drop_alg-objs a st _)
        ]
      ]
