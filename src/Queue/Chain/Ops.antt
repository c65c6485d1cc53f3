-- ===== src/Queue/Chain/Ops.antt =====
-- Each call on the pointers of a queue, against the same call on the list of its nodes
-- (work/share/src/share.cpp).
use aiotc.Prelude.{
  ℕ, ◌-◌, ◌≡◌, refl, ap, ◌∙◌, true, false, Option, none, some, List, [], ◌∷◌, arith, All,
  All-append, ◌==◌, if◌then◌else◌, inl, inr, Bool-cases, Option-cases, ltb,
}
use aiotc.Slab.{Ptr, Slab}
use aiotc.Queue.{Node, Cell, Queue, node_size, put_to_shm_queue, get_from_queue}
use aiotc.Queue.Chain.{Heap, Chain, get_from_chain, get_at, put_to_chain}
use aiotc.Queue.Chain.Segments.{has, last_addr, Seg, head-of, head-nil}
use aiotc.Queue.Chain.Unlink.{IsChain, Seg-at}
use aiotc.Queue.Chain.Links.{link-IsLinked}

module _ (s : Slab) {A : Type 0} where
  -- The pointers stand for the list: its nodes in their order, each in a block that is handed out,
  -- and its counters.
  pub record Refines (sp : s.Pool) (q : Chain A) (l : Queue A) : Type 0 where
    pub chain : IsChain q l.nodes
    pub same_max : q.use_max ≡ l.use_max
    pub same_len : q.que_len ≡ l.que_len
    pub owned : All (λ c. s.live sp c.addr ≡ true) l.nodes

  -- A block that is not handed out is none of the nodes.
  fresh-has :
      (sp : s.Pool) (a : Ptr) (cs : List (Cell A))
      → s.live sp a ≡ false
      → All (λ c. s.live sp c.addr ≡ true) cs
      → has a cs ≡ false
  fresh-has sp a [] f own = refl
  fresh-has sp a (c ∷ cs) f own = elim (Bool-cases (a == c.addr)) [
    | inl t ↦ absurd (ground (arith, own.0))
    | inr n ↦ rw n (fresh-has sp a cs f own.1)
  ]

  owned-after :
      (sp : s.Pool) (n : ℕ) (cs : List (Cell A))
      → ((b : Ptr) → s.live sp b ≡ true → s.live (s.malloc sp n).1 b ≡ true)
      → All (λ c. s.live sp c.addr ≡ true) cs
      → All (λ c. s.live (s.malloc sp n).1 c.addr ≡ true) cs
  owned-after sp n [] more own = tt
  owned-after sp n (c ∷ cs) more own = (more c.addr own.0, owned-after sp n cs more own.1)

  pub put-Refines :
      (sp : s.Pool) (q : Chain A) (l : Queue A) (n : Node A) (max : ℕ)
      → Refines sp q l
      → (q' : Chain A) × (put_to_chain s sp q n max
          ≡ some ((put_to_shm_queue s sp l n max).ret, (put_to_shm_queue s sp l n max).pool, q'))
        × Refines (put_to_shm_queue s sp l n max).pool q' (put_to_shm_queue s sp l n max).queue
  unfolding put_to_chain put_to_shm_queue
  put-Refines sp q l n max h = elim (Bool-cases (ltb l.que_len max)) [
    | inr f ↦ let f' : ltb q.que_len max ≡ false = rw h.same_len f in rw (f, f') (q, refl, h)
    | inl lt ↦
        let lt' : ltb q.que_len max ≡ true = rw h.same_len lt in
        elim (Option-cases (s.malloc sp node_size).0) [
          | inl e ↦
              rw (lt', lt, e)
                (
                  q,
                  refl,
                  record {
                    chain = h.chain;
                    same_max = h.same_max;
                    same_len = h.same_len;
                    owned =
                        owned-after sp node_size l.nodes
                          (λ b live. s.malloc_full sp node_size b e ∙ live) h.owned;
                  },
                )
          | inr (a, e) ↦
              let (q', eq, done) =
                link-IsLinked a n q l.nodes h.chain
                  (fresh-has sp a l.nodes (s.malloc_fresh sp node_size a e) h.owned) in
              let own =
                owned-after sp node_size l.nodes
                  (λ b live. ground (arith, s.malloc_live sp node_size a b e)) h.owned in
              let new : s.live (s.malloc sp node_size).1 a ≡ true =
                ground (arith, s.malloc_live sp node_size a a e) in
              rw (lt', lt, e, eq)
                (
                  q',
                  refl,
                  record {
                    chain = done.chain;
                    same_max = done.same_max ∙ h.same_max;
                    same_len = omega (arith, done.longer, h.same_len);
                    owned =
                        All-append (λ c. s.live (s.malloc sp node_size).1 c.addr ≡ true) l.nodes
                          (record { addr = a; node = n } ∷ []) own (new, tt);
                  },
                )
        ]
  ]

  module _ (sp : s.Pool) (q : Chain A) (u k : ℕ) where
    abbrev listed : List (Cell A) → Queue A
    listed cs = record { nodes = cs; use_max = u; que_len = k }

    -- The tail that getFromQueue leaves.
    tail-last :
        {h : Heap A} {next : Option Ptr} (c : Cell A) (cs : List (Cell A))
        → Seg h next cs
        → q.tail ≡ last_addr (c ∷ cs)
        → elim next [ none ↦ none | some _ ↦ q.tail ] ≡ last_addr cs
    tail-last c [] seg e = rw (head-nil seg) refl
    tail-last c (d ∷ ds) seg e = rw (head-of seg) e

    get_chain-cons :
        (c : Cell A) (next tail : Option Ptr)
        → q.head ≡ some c.addr
        → q.heap c.addr ≡ some (record { node = c.node; next = next })
        → q.que_len ≡ k
        → elim next [ none ↦ none | some _ ↦ q.tail ] ≡ tail
        → get_from_chain q
          ≡ some (
            (if k == 0 then none else some c),
            record q { head = next; tail = tail; que_len = k - 1 },
          )
    unfolding get_from_chain get_at
    get_chain-cons c next tail hd e len t = elim (Bool-cases (k == 0)) [
      | inl z ↦ ap (get_at q) hd ∙ rw (e, len, t, z) refl
      | inr z ↦ ap (get_at q) hd ∙ rw (e, len, t, z) refl
    ]

    get_chain-nil : q.head ≡ none → get_from_chain q ≡ some (none, q)
    unfolding get_from_chain get_at
    get_chain-nil hd = ap (get_at q) hd

    get-listed :
        (cs : List (Cell A))
        → Refines sp q (listed cs)
        → (q' : Chain A) × (get_from_chain q ≡ some ((get_from_queue (listed cs)).taken, q'))
          × Refines sp q' (get_from_queue (listed cs)).queue
    unfolding get_from_chain get_from_queue
    get-listed [] h = (q, get_chain-nil (head-nil h.chain.seg), h)
    get-listed (c ∷ cs) h =
        let (next, e, _, on) = Seg-at [] c cs h.chain.seg in
        (
          record q { head = next; tail = last_addr cs; que_len = k - 1 },
          get_chain-cons c next (last_addr cs) (head-of h.chain.seg) e h.same_len
                (tail-last c cs on h.chain.last)
              ∙ elim (Bool-cases (k == 0)) [ inl z ↦ rw z refl | inr z ↦ rw z refl ],
          elim (Bool-cases (k == 0)) [
            | inl z ↦ rw z (record {
              chain = record { seg = on; last = refl };
              same_max = h.same_max;
              same_len = ground arith;
              owned = h.owned.1;
            })
            | inr z ↦ rw z (record {
              chain = record { seg = on; last = refl };
              same_max = h.same_max;
              same_len = refl;
              owned = h.owned.1;
            })
          ],
        )

  -- getFromQueue hands out the same node.
  pub get-Refines :
      (sp : s.Pool) (q : Chain A) (l : Queue A)
      → Refines sp q l
      → (q' : Chain A) × (get_from_chain q ≡ some ((get_from_queue l).taken, q'))
        × Refines sp q' (get_from_queue l).queue
  get-Refines sp q l h = get-listed sp q l.use_max l.que_len l.nodes h
