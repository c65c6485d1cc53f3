-- ===== src/Pids/Load.antt =====
-- The load and the objects of a process through putObj2pidQue and delObjFromPidQue (src/pids.cpp).
use native.Mathlib.Nat.{div-lt_iff_lt-mul}
use aiotc.Prelude.{
  ℕ, ◌*◌, ◌<◌, ◌≡◌, ◌↔◌, refl, ap, Bool, true, false, Option, none, some, List, [], ◌∷◌, ◌++◌, ℤ,
  eq_ℤ_iff, ◌==◌, arith, length, is_some, ◌>>=◌,
}
use aiotc.Slab.{Slab}
use aiotc.Queue.{Cell, node_size, del_from_queue, search_from_queue, find_first}
use aiotc.Queue.Puts.{put-Puts, full, no_memory, stored}
use aiotc.Queue.Length.{IsCounted, put-IsCounted, del-IsCounted}
use aiotc.Obj.{ObjParam, condition_by_obj_id}
use aiotc.Pids.{PidOps, load_of, put_obj2pid_que, del_obj_from_pid_que}

-- The process takes `m` objects, counts those that it has, and its load follows the count.
pub record IsLoaded (m : ℕ) (p : PidOps) : Type 0 where
  pub limit : p.task_max ≡ m
  pub counted : IsCounted m p.pobj_queue
  pub loaded : p.load ≡ load_of p.pobj_queue m

module _ (s : Slab) (m : ℕ) (pm : 0 < m) where
  pub data Call : Type 0 where
    puts : ObjParam → Call
    dels : ℤ → Call

  unfoldable pub step : Call → s.Pool × PidOps → Option (s.Pool × PidOps)
  step (puts obj) (pool, p) =
      some ((put_obj2pid_que s m obj pool p).1, (put_obj2pid_que s m obj pool p).2)
  step (dels id) (pool, p) = del_obj_from_pid_que s id pool p

  unfoldable pub run : List Call → s.Pool × PidOps → Option (s.Pool × PidOps)
  unfolding step
  run [] st = some st
  run (c ∷ cs) st = do st' ← step c st; run cs st'

  pub put_obj-IsLoaded :
      (obj : ObjParam) (pool : s.Pool) (p : PidOps)
      → IsLoaded m p
      → IsLoaded m (put_obj2pid_que s m obj pool p).2
  unfolding put_obj2pid_que
  put_obj-IsLoaded obj pool p h =
      let f : (m == 0) ≡ false = ground arith in
      let c =
        put-IsCounted s m pool p.pobj_queue (record { name = obj; val = 0; arg = none })
          h.counted in
      rw (f, put_obj2pid_que) (record { limit = refl; counted = c; loaded = refl })

  del_obj_some :
      (id : ℤ) (pool : s.Pool) (p : PidOps)
      → IsLoaded m p
      → (out : s.Pool × PidOps) × (del_obj_from_pid_que s id pool p ≡ some out) × IsLoaded m out.1
  unfolding del_obj_from_pid_que
  del_obj_some id pool p h =
      let f : (p.task_max == 0) ≡ false = ground (arith, h.limit) in
      let c = del-IsCounted s m p.pobj_queue (condition_by_obj_id id) h.counted in
      let out = del_from_queue (condition_by_obj_id id) p.pobj_queue in
      (
        (
          elim out.0 [ none ↦ pool | some c ↦ s.free pool c.addr ],
          record p { pobj_queue = out.1; load = load_of out.1 p.task_max },
        ),
        rw (f, del_obj_from_pid_que) refl,
        record { limit = h.limit; counted = c; loaded = ap (load_of out.1) h.limit },
      )

  pub load-room : (p : PidOps) → IsLoaded m p → (p.load < 100) ↔ (length p.pobj_queue.nodes < m)
  load-room p h =
      let d = div-lt_iff_lt-mul {k = m} {x = p.pobj_queue.que_len * 100} {y = 100} pm in
      ground (arith, d, h.loaded, h.counted.exact)

  run-some :
      (cs : List Call) (pool : s.Pool) (p : PidOps)
      → IsLoaded m p
      → (out : s.Pool × PidOps) × (run cs (pool, p) ≡ some out) × IsLoaded m out.1
  unfolding run step
  run-some [] pool p h = ((pool, p), refl, h)
  run-some (puts obj ∷ cs) pool p h =
      run-some cs (put_obj2pid_que s m obj pool p).1 (put_obj2pid_que s m obj pool p).2
        (put_obj-IsLoaded obj pool p h)
  run-some (dels id ∷ cs) pool p h =
      let (out, e, h') = del_obj_some id pool p h in
      let (end, e', h'') = run-some cs out.0 out.1 h' in (end, rw e e', h'')

  -- Where a process takes `m` objects, one at least, and its count and load are right at first, every
  -- sequence of putObj2pidQue and delObjFromPidQue runs to its end, without a division by zero, and
  -- leaves at most `m` objects, counted exactly; and the load that it leaves is below 100 exactly if
  -- there is room for another.
  pub run-load :
      (cs : List Call) (pool : s.Pool) (p : PidOps)
      → IsLoaded m p
      → (out : s.Pool × PidOps) × (run cs (pool, p) ≡ some out)
        × IsCounted m out.1.pobj_queue
        × ((out.1.load < 100) ↔ (length out.1.pobj_queue.nodes < m))
  run-load cs pool p h =
      let (out, e, h') = run-some cs pool p h in (out, e, h'.counted, load-room out.1 h')

  find_first-end :
      (c : Cell ObjParam → Bool) (ps : List (Cell ObjParam)) (x : Cell ObjParam)
      → c x ≡ true
      → is_some (find_first c (ps ++ x ∷ [])) ≡ true
  unfolding find_first
  find_first-end c [] x t = ground arith
  find_first-end c (p ∷ ps) x t = ground (arith, find_first-end c ps x t)

  -- putObj2pidQue gives the object to a process whose count and load are right and whose load is
  -- below 100, for which conditionByPidOps2 looks, wherever the allocator grants the node: the object
  -- is in its queue then.
  pub put_obj2pid_que-room :
      (obj : ObjParam) (pool : s.Pool) (p : PidOps)
      → IsLoaded m p
      → p.load < 100
      → is_some (s.malloc pool node_size).0 ≡ true
      → is_some (
          search_from_queue
            (condition_by_obj_id obj.id)
            (put_obj2pid_que s m obj pool p).2.pobj_queue)
        ≡ true
  unfolding put_obj2pid_que search_from_queue
  put_obj2pid_que-room obj pool p h lt grants =
      let f : (m == 0) ≡ false = ground arith in
      let room : length p.pobj_queue.nodes < m = (load-room p h).0 lt in
      elim (put-Puts s pool p.pobj_queue (record { name = obj; val = 0; arg = none }) m) [
        | full le _ ↦ absurd (omega (arith, h.counted.exact))
        | no_memory e _ ↦ absurd (ground arith)
        | stored a _ _ r ↦
            rw (f, put_obj2pid_que, r)
              (find_first-end (condition_by_obj_id obj.id) p.pobj_queue.nodes _
                (ground (arith, eq_ℤ_iff obj.id obj.id)))
      ]
