-- ===== src/Queue/Puts.antt =====
-- The outcomes of putToShmQueue (work/share/src/share.cpp).
use aiotc.Prelude.{
  ℕ, ◌≤◌, ◌<◌, ◌≡◌, inl, inr, none, some, arith, pos, minus_one, ltb, Bool-cases, Option-cases,
}
use aiotc.Slab.{Ptr, Slab}
use aiotc.Queue.{Node, Queue, Put, append_node, put_to_shm_queue, node_size}

module _ (s : Slab) {A : Type 0} (sp : s.Pool) (q : Queue A) (n : Node A) (max : ℕ) where
  pub data Puts (r : Put s.Pool A) : Type 0 where
    full : max ≤ q.que_len → r ≡ record { ret = minus_one; pool = sp; queue = q } → Puts r
    no_memory :
        (s.malloc sp node_size).0 ≡ none
        → r ≡ record { ret = minus_one; pool = (s.malloc sp node_size).1; queue = q }
        → Puts r
    stored :
        (a : Ptr)
        → q.que_len < max
        → (s.malloc sp node_size).0 ≡ some a
        → r ≡ record {
          ret = pos 0;
          pool = (s.malloc sp node_size).1;
          queue = append_node q (record { addr = a; node = n });
        }
        → Puts r

  pub put-Puts : Puts (put_to_shm_queue s sp q n max)
  unfolding put_to_shm_queue
  put-Puts = elim (Bool-cases (ltb q.que_len max)) [
    | inr f ↦ full (ground arith) (rw f)
    | inl t ↦ elim (Option-cases (s.malloc sp node_size).0) [
      | inl e ↦ no_memory e (rw (t, e))
      | inr (a, e) ↦ stored a (ground arith) e (rw (t, e))
    ]
  ]

  pub put_full :
      max ≤ q.que_len
      → put_to_shm_queue s sp q n max ≡ record { ret = minus_one; pool = sp; queue = q }
  unfolding put_to_shm_queue
  put_full le = ground arith
