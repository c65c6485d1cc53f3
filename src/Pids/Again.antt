-- ===== src/Pids/Again.antt =====
-- A second call of getEmptyProc for the same object (src/pids.cpp).
use aiotc.Prelude.{
  ℕ, suc, ◌<◌, ◌≡◌, refl, ap, ◌∙◌, Bool, true, false, ◌&&◌, Option, none, some, [], ◌∷◌, ℤ, pos,
  lt_ℤ, arith, ltb, ltb→lt, ◌==◌, length, length-append, is_some, inl, inr, Bool-cases,
}
use aiotc.Cstring.{Text}
use aiotc.Slab.{Ptr, Slab}
use aiotc.Queue.{Cell, node_size, search_from_queue, find_first}
use aiotc.Queue.Puts.{put-Puts, full, no_memory, stored}
use aiotc.Obj.{ObjParam, condition_by_obj_id}
use aiotc.Pids.{
  PidOps, Pids, serves, condition_by_pid, condition_by_pid_ops, condition_by_pid_ops2, set_ops,
  put_obj2pid_que, give_obj, find_proc,
}
use aiotc.Pids.Written.{find_first-holds, find_first-written, find_first-unwritten}
use aiotc.Pids.Load.{IsLoaded, put_obj-IsLoaded, load-room, put_obj2pid_que-room}

module _ (s : Slab) (m : ℕ) (pm : 0 < m) (obj : ObjParam) (pool : s.Pool) (p : PidOps)
    (h : IsLoaded m p) (lt : p.load < 100)
    (grants : is_some (s.malloc pool node_size).0 ≡ true) where
  -- putObj2pidQue on a process with room: one object more, under the same names.
  put-length :
      length (put_obj2pid_que s m obj pool p).2.pobj_queue.nodes ≡ suc (length p.pobj_queue.nodes)
  unfolding put_obj2pid_que
  put-length =
      let f : (m == 0) ≡ false = ground arith in
      let room : length p.pobj_queue.nodes < m = (load-room s m pm p h).0 lt in
      elim (put-Puts s pool p.pobj_queue (record { name = obj; val = 0; arg = none }) m) [
        | full le _ ↦ absurd (omega (arith, h.counted.exact))
        | no_memory e _ ↦ absurd (ground arith)
        | stored a _ _ r ↦
            rw (f, put_obj2pid_que, r)
              (omega (arith, length-append p.pobj_queue.nodes (new_node a ∷ [])))
      ]
    where
      new_node : Ptr → Cell ObjParam
      new_node a = record { addr = a; node = record { name = obj; val = 0; arg = none } }

  put_same :
      ((put_obj2pid_que s m obj pool p).2.name ≡ p.name)
      × ((put_obj2pid_que s m obj pool p).2.sub_name ≡ p.sub_name)
      × ((put_obj2pid_que s m obj pool p).2.proc ≡ p.proc)
  unfolding put_obj2pid_que
  put_same = let f : (m == 0) ≡ false = ground arith in rw (f, put_obj2pid_que) (refl, refl, refl)

  put-serves :
      (name sub_name : Text) (proc : ℕ)
      → serves name sub_name proc p ≡ true
      → serves name sub_name proc (put_obj2pid_que s m obj pool p).2
        ≡ ltb (suc (length p.pobj_queue.nodes)) m
  put-serves name sub_name proc e =
      let after = (put_obj2pid_que s m obj pool p).2 in
      ground (
        arith,
        e,
        put_same.0,
        put_same.1,
        put_same.2,
        load-room s m pm after (put_obj-IsLoaded s m pm obj pool p h),
        put-length,
      )

module _ (s : Slab) (m : ℕ) (pm : 0 < m) (obj : ObjParam) (load : ℤ) (name sub_name : Text)
    (tmp : PidOps) where
  -- What the first call leaves, and a second call with any load and any new process finds.
  pub data Again (p : Cell PidOps) (out : Option Ptr × Pids s) : Type 0 where
    -- The process has room for another object: the second call returns it and changes nothing.
    found_again :
        suc (length p.name.pobj_queue.nodes) < m
        → ((load' : ℤ) (created : ℤ × Pids s)
            → find_proc s m obj load' created name sub_name tmp out.1 ≡ (some p.addr, out.1))
        → Again p out
    -- The object has filled the process: no process is found that has the object.
    passed_over :
        suc (length p.name.pobj_queue.nodes) ≡ m
        → search_from_queue (condition_by_pid_ops name sub_name tmp.proc obj.id) out.1.pid_queue
          ≡ none
        → Again p out

  -- A process that has the object is returned.
  found :
      (load' : ℤ) (made : ℤ × Pids s) (st : Pids s) (x : Cell PidOps)
      → search_from_queue (condition_by_pid_ops name sub_name tmp.proc obj.id) st.pid_queue ≡ some x
      → find_proc s m obj load' made name sub_name tmp st ≡ (some x.addr, st)
  unfolding find_proc
  found load' made st x e = rw (e, find_proc) refl

  module _ (st : Pids s) (created : ℤ × Pids s) (p : Cell PidOps)
      (new : search_from_queue (condition_by_pid_ops name sub_name tmp.proc obj.id) st.pid_queue
        ≡ none)
      (room : search_from_queue (condition_by_pid_ops2 name sub_name tmp.proc) st.pid_queue
        ≡ some p)
      (own : search_from_queue (condition_by_pid p.name.pid) st.pid_queue ≡ some p)
      (runs : lt_ℤ (pos 0) p.name.pid ≡ true) (h : IsLoaded m p.name)
      (grants : is_some (s.malloc st.pool node_size).0 ≡ true) where
    after : PidOps
    after = (put_obj2pid_que s m obj st.pool p.name).2

    first_call : find_proc s m obj load created name sub_name tmp st ≡ (
      some p.addr,
      record st {
        pool = (put_obj2pid_que s m obj st.pool p.name).1;
        pid_queue = set_ops p.addr after st.pid_queue;
      },
    )
    unfolding find_proc give_obj after
    first_call = rw (new, find_proc) (rw (room) (rw runs (rw (own, give_obj) refl)))

    -- The process has room, and it has the object afterwards.
    low : p.name.load < 100
    unfolding find_first search_from_queue
    low = ground (
      arith,
      find_first-holds (condition_by_pid_ops2 name sub_name tmp.proc) st.pid_queue.nodes p room,
    )

    holds : PidOps → Bool
    holds ops =
        serves name sub_name tmp.proc ops
        && is_some (search_from_queue (condition_by_obj_id obj.id) ops.pobj_queue)

    after-holds : holds after ≡ ltb (suc (length p.name.pobj_queue.nodes)) m
    unfolding after holds find_first search_from_queue
    after-holds =
        let serving : serves name sub_name tmp.proc p.name ≡ true =
          find_first-holds (condition_by_pid_ops2 name sub_name tmp.proc) st.pid_queue.nodes p
            room in
        ground (
          arith,
          put-serves s m pm obj st.pool p.name h low grants name sub_name tmp.proc serving,
          put_obj2pid_que-room s m pm obj st.pool p.name h low grants,
        )

    second_call : Again p (
      some p.addr,
      record st {
        pool = (put_obj2pid_que s m obj st.pool p.name).1;
        pid_queue = set_ops p.addr after st.pid_queue;
      },
    )
    unfolding search_from_queue holds
    second_call = elim (Bool-cases (ltb (suc (length p.name.pobj_queue.nodes)) m)) [
      | inl more ↦
          (let (x, e, a) =
              find_first-written holds (condition_by_pid p.name.pid) after p st.pid_queue.nodes new
                own (after-holds ∙ more) in
            found_again (ltb→lt _ _ more) (λ load' made.
              found load' made _ x e
              ∙ ap
                  (λ b. (
                    some b,
                    record st {
                      pool = (put_obj2pid_que s m obj st.pool p.name).1;
                      pid_queue = set_ops p.addr after st.pid_queue;
                    },
                  ))
                  a))
      | inr filled ↦ passed_over (ground (arith, load-room s m pm p.name h, low)) (
          find_first-unwritten holds (condition_by_pid p.name.pid) after p st.pid_queue.nodes new
            (after-holds ∙ filled))
    ]

    -- Where no process of the kind has the object, a process with room is found, which its pid
    -- finds too, the pid is positive, the process holds its objects within the limit and its load
    -- says how many, and the allocator grants a node, the search of getEmptyProc returns that
    -- process. Afterwards a second search for the same object, with any load and any new process,
    -- returns the same process and changes nothing, if the process has room for another object;
    -- if the object filled it, no process is found that has the object.
    pub find_proc-Again :
        ((find_proc s m obj load created name sub_name tmp st).0 ≡ some p.addr)
        × Again p (find_proc s m obj load created name sub_name tmp st)
    find_proc-Again = rw first_call (refl, second_call)
