-- ===== src/Queue/Length.antt =====
-- `queLen`, and the order in which nodes leave a queue (work/share/src/share.cpp).
use aiotc.Prelude.{
  ℕ, zero, suc, ◌+◌, ◌≤◌, ◌≡◌, refl, Bool, true, false, none, some, List, [], ◌∷◌, ◌++◌, arith, pos,
  length, length-append,
}
use aiotc.Slab.{Ptr, Slab}
use aiotc.Queue.Puts.{put-Puts, full, no_memory, stored}
use aiotc.Queue.{
  Node, Cell, Queue, empty, put_to_shm_queue, free_shm_queue, get_from_queue, remove_first,
  del_from_queue, use_first, del_from_queue_by_user,
}

-- A call that changes a queue's list. `put` carries its caller's `max`.
pub data Op (A : Type 0) : Type 0 where
  put : Node A → Op A
  get clear : Op A
  del del_by_user : (Cell A → Bool) → Op A

-- The count is exact, and within the limit that the callers of `put` pass.
pub record IsCounted {A : Type 0} (max : ℕ) (q : Queue A) : Type 0 where
  pub exact : q.que_len ≡ length q.nodes
  pub within : length q.nodes ≤ max

length-remove_first :
    {A : Type 0} (c : Cell A → Bool) (ps : List (Cell A))
    → length ps ≡ elim (remove_first c ps).0 [
      | none ↦ length (remove_first c ps).1
      | some p ↦ suc (length (remove_first c ps).1)
    ]
unfolding remove_first
length-remove_first c [] = refl
length-remove_first c (p ∷ ps) = ground (arith, length-remove_first c ps)

length-use_first :
    {A : Type 0} (m : ℕ) (c : Cell A → Bool) (ps : List (Cell A))
    → length ps ≡ elim (use_first m c ps).1 [
      | false ↦ length (use_first m c ps).2
      | true ↦ suc (length (use_first m c ps).2)
    ]
unfolding use_first
length-use_first m c [] = refl
length-use_first m c (p ∷ ps) = ground (arith, length-use_first m c ps)

module _ (s : Slab) {A : Type 0} (max : ℕ) where
  unfoldable pub step : Op A → s.Pool × Queue A → s.Pool × Queue A
  step (put n) (sp, q) = let r = put_to_shm_queue s sp q n max in (r.pool, r.queue)
  step get (sp, q) = (sp, (get_from_queue q).queue)
  step clear (sp, q) = free_shm_queue s (λ sp _. sp) sp q
  step (del c) (sp, q) = (sp, (del_from_queue c q).1)
  step (del_by_user c) (sp, q) = (sp, (del_from_queue_by_user c q).1)

  unfoldable pub run : List (Op A) → s.Pool × Queue A → s.Pool × Queue A
  unfolding step
  run [] st = st
  run (o ∷ os) st = run os (step o st)

  pub put-IsCounted :
      (sp : s.Pool) (q : Queue A) (n : Node A)
      → IsCounted max q
      → IsCounted max (put_to_shm_queue s sp q n max).queue
  put-IsCounted sp q n h = elim (put-Puts s sp q n max) [
    | full _ e ↦ rw e h
    | no_memory _ e ↦ rw e h
    | stored a lt _ e ↦ rw e (omega (arith, length-append {0} q.nodes, h.exact))
  ]

  get-IsCounted :
      (q : Queue A) (ps : List (Cell A))
      → q.nodes ≡ ps
      → IsCounted max q
      → IsCounted max (get_from_queue q).queue
  unfolding get_from_queue
  get-IsCounted q [] e h = ground arith
  get-IsCounted q (p ∷ ps) e h = ground arith

  pub del-IsCounted :
      (q : Queue A) (c : Cell A → Bool) → IsCounted max q → IsCounted max (del_from_queue c q).1
  unfolding del_from_queue
  del-IsCounted q c h = ground (arith, length-remove_first c q.nodes)

  del_by_user-IsCounted :
      (q : Queue A) (c : Cell A → Bool)
      → IsCounted max q
      → IsCounted max (del_from_queue_by_user c q).1
  unfolding del_from_queue_by_user
  del_by_user-IsCounted q c h = ground (arith, length-use_first q.use_max c q.nodes)

  pub step-IsCounted :
      (o : Op A) (sp : s.Pool) (q : Queue A) → IsCounted max q → IsCounted max (step o (sp, q)).1
  unfolding step free_shm_queue
  step-IsCounted (put n) sp q h = put-IsCounted sp q n h
  step-IsCounted get sp q h = get-IsCounted q q.nodes refl h
  step-IsCounted clear sp q h = omega arith
  step-IsCounted (del c) sp q h = del-IsCounted q c h
  step-IsCounted (del_by_user c) sp q h = del_by_user-IsCounted q c h

  run_from-IsCounted :
      (os : List (Op A)) (st : s.Pool × Queue A) → IsCounted max st.1 → IsCounted max (run os st).1
  unfolding run
  run_from-IsCounted [] st h = h
  run_from-IsCounted (o ∷ os) st h =
      run_from-IsCounted os (step o st) (step-IsCounted o st.0 st.1 h)

  -- A queue that starts cleared keeps its count exact and its length within the limit that its
  -- callers pass, through every sequence of the queue's calls, with any outcomes of the allocator.
  pub run-IsCounted : (os : List (Op A)) (sp : s.Pool) → IsCounted max (run os (sp, empty)).1
  run-IsCounted os sp =
      run_from-IsCounted os (sp, empty) (record { exact = refl; within = omega arith })

-- The nodes in the order in which calls of getFromQueue hand them out.
unfoldable pub drain : {A : Type 0} → ℕ → Queue A → List (Cell A)
drain zero q = []
drain (suc k) q =
    let out = get_from_queue q in
    let later = drain k out.queue in elim out.taken [ none ↦ later | some p ↦ p ∷ later ]

pub get-nil :
    {A : Type 0} (q : Queue A)
    → q.nodes ≡ []
    → get_from_queue q ≡ record { ret = pos 0; taken = none; queue = q }
unfolding get_from_queue
get-nil q e = rw (e, get_from_queue)

pub get-cons :
    {A : Type 0} (q : Queue A) (p : Cell A) (ps : List (Cell A))
    → q.nodes ≡ p ∷ ps
    → q.que_len ≡ suc (length ps)
    → get_from_queue q ≡ record {
      ret = pos 0;
      taken = some p;
      queue = record { nodes = ps; use_max = q.use_max; que_len = length ps };
    }
unfolding get_from_queue
get-cons q p ps e n = ground arith

drain-nodes :
    {A : Type 0} (k : ℕ) (q : Queue A) (ps : List (Cell A))
    → q.nodes ≡ ps
    → q.que_len ≡ length ps
    → length ps ≤ k
    → drain k q ≡ ps
unfolding drain
drain-nodes zero q [] e h le = refl
drain-nodes zero q (p ∷ ps) e h le = absurd (omega arith)
drain-nodes (suc k) q [] e h le = ground (arith, get-nil q e, drain-nodes k q [] e h)
drain-nodes (suc k) q (p ∷ ps) e h le =
    let q' : Queue _ = record { nodes = ps; use_max = q.use_max; que_len = length ps } in
    ground (arith, get-cons q p ps e h, drain-nodes k q' ps refl refl (omega arith))

drain_all : {A : Type 0} (q : Queue A) → q.que_len ≡ length q.nodes → drain q.que_len q ≡ q.nodes
drain_all q h = drain-nodes q.que_len q q.nodes refl h (omega arith)

-- First in, first out: where the count is exact, a put that succeeds leaves a queue that hands out
-- all the nodes that were there, in their order, and then the new one.
pub drain-put :
    (s : Slab) {A : Type 0} (sp : s.Pool) (q : Queue A) (n : Node A) (max : ℕ)
    → q.que_len ≡ length q.nodes
    → (put_to_shm_queue s sp q n max).ret ≡ pos 0
    → (a : Ptr) × (drain (q.que_len + 1) (put_to_shm_queue s sp q n max).queue
        ≡ drain q.que_len q ++ record { addr = a; node = n } ∷ [])
drain-put s sp q n max h done = elim (put-Puts s sp q n max) [
  | full _ e ↦ cc
  | no_memory _ e ↦ cc
  | stored a lt _ e ↦ (
    a,
    rw (e, drain_all q h)
        (drain-nodes (q.que_len + 1) _ _ refl (omega (arith, length-append {0} q.nodes))
          (omega (arith, length-append {0} q.nodes))),
  )
]
