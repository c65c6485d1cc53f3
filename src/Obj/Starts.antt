-- ===== src/Obj/Starts.antt =====
-- addAlg followed by delAlg (src/misc.cpp).
use aiotc.Prelude.{
  ℕ, suc, zero, ◌≡◌, ◌≢◌, refl, ap, ◌∙◌, true, false, some, none, [], ◌∷◌, ℤ, pos, minus_one, arith,
  All, take,
}
use aiotc.Cstring.{Text, strncpy, strncmp_eq, strcmp_eq_iff}
use aiotc.Slab.{Ptr, Slab, free-malloc}
use aiotc.Queue.{
  Cell, Put, Queue, append_node, node_size, put_to_shm_queue, search_from_queue, del_from_queue,
}
use aiotc.Queue.Puts.{put-Puts, full, no_memory, stored}
use aiotc.Queue.Delete.{del_from_queue-append_node}
use aiotc.Obj.{AlgParams, ObjParam, Objs, condition_by_obj_id, condition_by_alg_name}
use aiotc.Obj.Algs.{alg_node, put_alg, add_alg, del_alg, drop_alg}

take-take : (n : ℕ) (xs : Text) → take n (take n xs) ≡ take n xs
take-take zero xs = refl
take-take (suc n) [] = refl
take-take (suc n) (x ∷ xs) = ap (◌∷◌ x) (take-take n xs)

same_name : (name : Text) → strncmp_eq 32 name (strncpy 32 name) ≡ true
unfolding strncmp_eq
same_name name =
    ground (arith, strcmp_eq_iff (take 32 name) (take 32 (take 32 name)), take-take 32 name)

module _ (s : Slab) (id : ℤ) (alg_name : Text) (st : Objs s) (p : Cell ObjParam) (a : Ptr) where
  add_alg-put :
      search_from_queue (condition_by_obj_id id) st.objs ≡ some p
      → p.name.task ≡ some a
      → add_alg s id alg_name st
        ≡ put_alg s a st (put_to_shm_queue s st.pool (st.tasks a).alg_queue (alg_node alg_name) 100)
  unfolding add_alg
  add_alg-put found task = rw (found, add_alg, task) refl

  del_alg-drop :
      (st' : Objs s)
      → search_from_queue (condition_by_obj_id id) st'.objs ≡ some p
      → p.name.task ≡ some a
      → del_alg s id alg_name st'
        ≡ drop_alg s a st' (del_from_queue (condition_by_alg_name alg_name) (st'.tasks a).alg_queue)
  unfolding del_alg
  del_alg-drop st' found task = rw (found, del_alg, task) refl

  put_alg-queue : (r : Put s.Pool AlgParams) → ((put_alg s a st r).tasks a).alg_queue ≡ r.queue
  unfolding put_alg
  put_alg-queue r = ground arith

  unchanged :
      (r : Put s.Pool AlgParams)
      → add_alg s id alg_name st ≡ put_alg s a st r
      → ((add_alg s id alg_name st).tasks a).alg_queue ≡ r.queue
  unchanged r e = ap (λ st'. (st'.tasks a).alg_queue) e ∙ put_alg-queue r

  drop_alg-back :
      (st' : Objs s) (c : Cell AlgParams) (algs : Queue AlgParams)
      → c.arg ≡ none
      → (((drop_alg s a st' (some c, algs)).tasks a).alg_queue ≡ algs)
        × ((drop_alg s a st' (some c, algs)).pool ≡ s.free st'.pool c.addr)
  unfolding drop_alg
  drop_alg-back st' c algs e = (ground arith, rw e refl)

  same_objs :
      (r : Put s.Pool AlgParams)
      → search_from_queue (condition_by_obj_id id) (put_alg s a st r).objs
        ≡ search_from_queue (condition_by_obj_id id) st.objs
  unfolding put_alg
  same_objs r = refl

  del_alg-put :
      (r : Put s.Pool AlgParams) (x : Ptr)
      → search_from_queue (condition_by_obj_id id) st.objs ≡ some p
      → p.name.task ≡ some a
      → All (λ c. condition_by_alg_name alg_name c ≡ false) (st.tasks a).alg_queue.nodes
      → r.queue ≡ append_node (st.tasks a).alg_queue (record { addr = x; node = alg_node alg_name })
      → del_alg s id alg_name (put_alg s a st r)
        ≡ drop_alg s a
            (put_alg s a st r)
            (some (record { addr = x; node = alg_node alg_name }), (st.tasks a).alg_queue)
  del_alg-put r x found task new e =
      del_alg-drop (put_alg s a st r) (same_objs r ∙ found) task
      ∙ ap (drop_alg s a (put_alg s a st r)) (
          ap (del_from_queue (condition_by_alg_name alg_name)) (put_alg-queue r ∙ e)
          ∙ del_from_queue-append_node (condition_by_alg_name alg_name) (st.tasks a).alg_queue
              (record { addr = x; node = alg_node alg_name }) new (same_name alg_name))

  -- Where the object is found and has a task, and no algorithm of the task has the name, an algorithm
  -- that addAlg put into the task's queue is taken out again by delAlg: the task's queue and the set
  -- of blocks handed out are as they were before addAlg.
  del_alg-add_alg :
      search_from_queue (condition_by_obj_id id) st.objs ≡ some p
      → p.name.task ≡ some a
      → All (λ c. condition_by_alg_name alg_name c ≡ false) (st.tasks a).alg_queue.nodes
      → ((add_alg s id alg_name st).tasks a).alg_queue ≢ (st.tasks a).alg_queue
      → (((del_alg s id alg_name (add_alg s id alg_name st)).tasks a).alg_queue
          ≡ (st.tasks a).alg_queue)
        × ((b : Ptr)
            → s.live (del_alg s id alg_name (add_alg s id alg_name st)).pool b ≡ s.live st.pool b)
  unfolding put_alg
  del_alg-add_alg found task new took =
      let algs = (st.tasks a).alg_queue in
      let e = add_alg-put found task in
      elim (put-Puts s st.pool algs (alg_node alg_name) 100) [
        | full _ r ↦ absurd (
            took (
              unchanged (record { ret = minus_one; pool = st.pool; queue = algs })
                (e ∙ ap (put_alg s a st) r)))
        | no_memory _ r ↦ absurd (
            took (
              unchanged
                (record { ret = minus_one; pool = (s.malloc st.pool node_size).1; queue = algs })
                (e ∙ ap (put_alg s a st) r)))
        | stored x _ m r ↦
            let c : Cell AlgParams = record { addr = x; node = alg_node alg_name } in
            let r' : Put s.Pool AlgParams = record {
              ret = pos 0;
              pool = (s.malloc st.pool node_size).1;
              queue = append_node algs c;
            } in
            let back = drop_alg-back (put_alg s a st r') c algs refl in
            let gone =
              ap (del_alg s id alg_name) (e ∙ ap (put_alg s a st) r)
              ∙ del_alg-put r' x found task new refl in
            (
              ap (λ st'. (st'.tasks a).alg_queue) gone ∙ back.0,
              λ b.
                  ap (λ st'. s.live st'.pool b) gone
                  ∙ ap (λ sp. s.live sp b) back.1
                  ∙ free-malloc s st.pool node_size x b m,
            )
      ]
