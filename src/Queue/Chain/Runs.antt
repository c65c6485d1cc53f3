-- ===== src/Queue/Chain/Runs.antt =====
-- Sequences of calls on the pointers of a queue, against the same calls on the list of its nodes
-- (work/share/src/share.cpp).
use aiotc.Prelude.{ℕ, ◌≡◌, refl, Option, none, some, List, [], ◌∷◌, arith, ◌>>=◌}
use aiotc.Slab.{Slab}
use aiotc.Queue.{Queue, empty}
use aiotc.Queue.Length.{Op, put, get, clear, del, del_by_user, IsCounted, step-IsCounted}
use aiotc.Queue.Length as Lists
use aiotc.Queue.Chain.{
  Heap, Chain, put_to_chain, get_from_chain, free_chain, del_from_chain, use_from_chain,
}
use aiotc.Queue.Chain.Segments.{nil}
use aiotc.Queue.Chain.Ops.{Refines, put-Refines, get-Refines}
use aiotc.Queue.Chain.Walks.{del-Refines, free-Refines}
use aiotc.Queue.Chain.Uses.{use-Refines}

-- A queue that `memset` cleared, over any memory.
abbrev pub cleared : {A : Type 0} → Heap A → Chain A
cleared heap = record { heap = heap; head = none; tail = none; use_max = 0; que_len = 0 }

module _ (s : Slab) {A : Type 0} (max : ℕ) where
  -- A call on the pointers, with `max` rounds of its loop.
  unfoldable pub step : Op A → s.Pool × Chain A → Option (s.Pool × Chain A)
  step (put n) (sp, q) = do out ← put_to_chain s sp q n max; some (out.1, out.2)
  step get (sp, q) = do out ← get_from_chain q; some (sp, out.1)
  step clear (sp, q) = free_chain s max sp q
  step (del c) (sp, q) = do out ← del_from_chain max c q; some (sp, out.1)
  step (del_by_user c) (sp, q) = do out ← use_from_chain max c q; some (sp, out.1)

  unfoldable pub run : List (Op A) → s.Pool × Chain A → Option (s.Pool × Chain A)
  unfolding step
  run [] st = some st
  run (o ∷ os) st = do st' ← step o st; run os st'

  -- A state that the pointers reach, and the list that it stands for.
  pub record Reaches (r : Option (s.Pool × Chain A)) (l : s.Pool × Queue A) : Type 0 where
    pub chain : Chain A
    pub ran : r ≡ some (l.0, chain)
    pub refines : Refines s l.0 chain l.1

  step-Reaches :
      (o : Op A) (sp : s.Pool) (q : Chain A) (l : Queue A)
      → Refines s sp q l
      → IsCounted max l
      → Reaches (step o (sp, q)) (Lists.step s max o (sp, l))
  unfolding step Lists.step
  step-Reaches (put n) sp q l h c =
      let (q', e, h') = put-Refines s sp q l n max h in
      record { chain = q'; ran = rw e refl; refines = h' }
  step-Reaches get sp q l h c =
      let (q', e, h') = get-Refines s sp q l h in
      record { chain = q'; ran = rw e refl; refines = h' }
  step-Reaches clear sp q l h c =
      let (q', e, h') = free-Refines s max sp q l h c.within in
      record { chain = q'; ran = e; refines = h' }
  step-Reaches (del f) sp q l h c =
      let (q', e, h') = del-Refines s max f sp q l h c.within in
      record { chain = q'; ran = rw e refl; refines = h' }
  step-Reaches (del_by_user f) sp q l h c =
      let (q', e, h') = use-Refines s max f sp q l h c.within in
      record { chain = q'; ran = rw e refl; refines = h' }

  run_from-Reaches :
      (os : List (Op A)) (st : s.Pool × Queue A) (q : Chain A)
      → Refines s st.0 q st.1
      → IsCounted max st.1
      → Reaches (run os (st.0, q)) (Lists.run s max os st)
  unfolding run Lists.run
  run_from-Reaches [] st q h c = record { chain = q; ran = refl; refines = h }
  run_from-Reaches (o ∷ os) st q h c =
      let r = step-Reaches o st.0 q st.1 h c in
      let st' = Lists.step s max o st in
      let c' = step-IsCounted s max o st.0 st.1 c in
      rw r.ran (run_from-Reaches os st' r.chain r.refines c')

  -- The pointers of a queue that starts cleared, over any memory, come through every sequence of the
  -- queue's calls, with any outcomes of the allocator: no call reads or writes through NULL or through
  -- a block without a node, no loop takes more rounds than the limit on the queue's length, and the
  -- pointers lead through the nodes of the list that the same calls on lists leave, in its order, with
  -- `tail` at its last, with the same blocks and counters.
  pub run-Reaches :
      (os : List (Op A)) (sp : s.Pool) (heap : Heap A)
      → Reaches (run os (sp, cleared heap)) (Lists.run s max os (sp, empty))
  run-Reaches os sp heap =
      run_from-Reaches os (sp, empty) (cleared heap)
        (record {
          chain = record { seg = nil; last = refl };
          same_max = refl;
          same_len = refl;
          owned = tt;
        })
        (record { exact = refl; within = omega arith })
