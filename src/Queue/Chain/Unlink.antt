-- ===== src/Queue/Chain/Unlink.antt =====
-- The node that delFromQueue takes off the chain (work/share/src/share.cpp).
use aiotc.Prelude.{
  ◌-◌, ◌≡◌, refl, sym, ◌∙◌, false, Option, none, some, List, [], ◌∷◌, ◌++◌, arith, All,
}
use mathlib.Core.List.{append_assoc}
use aiotc.Slab.{Ptr}
use aiotc.Queue.{Cell}
use aiotc.Queue.Chain.{Heap, Chain, store, eq_ptr, set_next, unlink}
use aiotc.Queue.Chain.Segments.{
  has, has-append, last_addr, last_addr-append, eq_last, eq_self, Seg, nil, cons, head-of, splice,
  Seg-apart,
}

module _ {A : Type 0} where
  -- The pointers of a chain lead through the nodes, and `tail` is the last of them.
  pub record IsChain (q : Chain A) (cs : List (Cell A)) : Type 0 where
    pub seg : Seg q.heap q.head cs
    pub last : q.tail ≡ last_addr cs

  -- What a node of a segment holds in memory.
  pub Seg-at :
      {h : Heap A} (b : List (Cell A)) {p : Option Ptr} (x : Cell A) (rest : List (Cell A))
      → Seg h p (b ++ x ∷ rest)
      → (next : Option Ptr) × (h x.addr ≡ some (record { node = x.node; next = next }))
        × (has x.addr rest ≡ false)
        × Seg h next rest
  Seg-at [] x rest (cons {next = next} e apart seg) = (next, e, apart, seg)
  Seg-at (c ∷ b) x rest (cons e apart seg) = Seg-at b x rest seg

  -- A chain without one node.
  pub record IsUnlinked (q q' : Chain A) (cs : List (Cell A)) : Type 0 where
    pub chain : IsChain q' cs
    pub same_max : q'.use_max ≡ q.use_max
    pub shorter : q'.que_len ≡ q.que_len - 1

  abbrev Unlinks : Chain A → Option (Chain A) → List (Cell A) → Type 0
  Unlinks q r cs = (q' : Chain A) × (r ≡ some q') × IsUnlinked q q' cs

  -- The first node is taken off.
  unlink-first :
      (q : Chain A) (x : Cell A) (rest : List (Cell A)) (prev next : Option Ptr)
      → IsChain q (x ∷ rest)
      → has x.addr rest ≡ false
      → Seg q.heap next rest
      → Unlinks q (unlink q prev x.addr next) rest
  unfolding unlink
  unlink-first q x [] prev next h apart on = (
    record q { head = none; tail = none; que_len = q.que_len - 1 },
    rw (head-of h.seg, h.last, eq_self x.addr) refl,
    record { chain = record { seg = nil; last = refl }; same_max = refl; shorter = refl },
  )
  unlink-first q x (y ∷ ys) prev next h apart on = (
    record q { head = next; que_len = q.que_len - 1 },
    rw (head-of h.seg, h.last, eq_self x.addr, eq_last x.addr (y ∷ ys) apart) refl,
    record { chain = record { seg = on; last = h.last }; same_max = refl; shorter = refl },
  )

  pub set_next-at :
      (heap : Heap A) (t : Cell A) (old next : Option Ptr)
      → heap t.addr ≡ some (record { node = t.node; next = old })
      → set_next heap (some t.addr) next
        ≡ some (store heap t.addr (record { node = t.node; next = next }))
  unfolding set_next
  set_next-at heap t old next e = rw (e, set_next) refl

  -- A node behind the first is not the head.
  not-head :
      (h : Heap A) (b : List (Cell A)) {p : Option Ptr} (t x : Cell A) (rest : List (Cell A))
      → Seg h p (b ++ t ∷ x ∷ rest)
      → eq_ptr x.addr p ≡ false
  not-head h [] t x rest (cons e apart seg) = ground arith
  not-head h (c ∷ b) t x rest (cons e apart seg) =
      ground (arith, has-append c.addr b (t ∷ x ∷ rest))

  -- Another node is taken off; `t` stands before it.
  unlink-later :
      (q : Chain A) (b : List (Cell A)) (t x : Cell A) (rest : List (Cell A)) (next : Option Ptr)
      → IsChain q (b ++ t ∷ x ∷ rest)
      → has x.addr rest ≡ false
      → Seg q.heap next rest
      → All (λ c. has c.addr rest ≡ false) (b ++ t ∷ [])
      → Unlinks q (unlink q (some t.addr) x.addr next) (b ++ t ∷ rest)
  unfolding unlink
  unlink-later q b t x [] next h apart on out =
      let (old, e, _, _) = Seg-at b t (x ∷ []) h.seg in
      (
        record q {
          heap = store q.heap t.addr (record { node = t.node; next = none });
          tail = some t.addr;
          que_len = q.que_len - 1;
        },
        rw
            (
              not-head q.heap b t x [] h.seg,
              h.last,
              last_addr-append b t (x ∷ []),
              eq_self x.addr,
              set_next-at q.heap t old none e,
            )
            refl,
        record {
          chain = record {
            seg = splice b t (x ∷ []) [] h.seg nil out;
            last = sym (last_addr-append b t []);
          };
          same_max = refl;
          shorter = refl;
        },
      )
  unlink-later q b t x (y ∷ ys) next h apart on out =
      let (old, e, _, _) = Seg-at b t (x ∷ y ∷ ys) h.seg in
      (
        record q {
          heap = store q.heap t.addr (record { node = t.node; next = next });
          que_len = q.que_len - 1;
        },
        rw
            (
              not-head q.heap b t x (y ∷ ys) h.seg,
              h.last,
              last_addr-append b t (x ∷ y ∷ ys),
              eq_last x.addr (y ∷ ys) apart,
              set_next-at q.heap t old next e,
            )
            refl,
        record {
          chain = record {
            seg = splice b t (x ∷ y ∷ ys) (y ∷ ys) h.seg on out;
            last = h.last ∙ last_addr-append b t (x ∷ y ∷ ys) ∙ sym (last_addr-append b t (y ∷ ys));
          };
          same_max = refl;
          shorter = refl;
        },
      )

  -- The node that the walk has come from, NULL or any where it stands at the first.
  pub data Prev (prev : Option Ptr) : List (Cell A) → Type 0 where
    at_head : Prev prev []
    behind : (b : List (Cell A)) (t : Cell A) → prev ≡ some t.addr → Prev prev (b ++ t ∷ [])

  All-has-tail :
      (x : Cell A) (rest cs : List (Cell A))
      → All (λ c. has c.addr (x ∷ rest) ≡ false) cs
      → All (λ c. has c.addr rest ≡ false) cs
  All-has-tail x rest [] h = tt
  All-has-tail x rest (c ∷ cs) h = (ground (arith, h.0), All-has-tail x rest cs h.1)

  pub unlink-any :
      (q : Chain A) (ws : List (Cell A)) (x : Cell A) (rest : List (Cell A))
      (prev next : Option Ptr)
      → Prev prev ws
      → IsChain q (ws ++ x ∷ rest)
      → has x.addr rest ≡ false
      → Seg q.heap next rest
      → Unlinks q (unlink q prev x.addr next) (ws ++ rest)
  unlink-any q ws x rest prev next at_head h apart on = unlink-first q x rest prev next h apart on
  unlink-any q ws x rest prev next (behind b t e) h apart on =
      let h' : IsChain q (b ++ t ∷ x ∷ rest) = rw (sym (append_assoc b (t ∷ []) (x ∷ rest))) h in
      rw (e, append_assoc b (t ∷ []) rest)
        (unlink-later q b t x rest next h' apart on
          (All-has-tail x rest (b ++ t ∷ []) (Seg-apart (b ++ t ∷ []) (x ∷ rest) h.seg)))
