-- ===== src/Queue/Chain/Links.antt =====
-- The node that putToShmQueue puts at the end of the chain (work/share/src/share.cpp).
use mathlib.Core.List.{append_assoc}
use aiotc.Prelude.{◌+◌, ◌≡◌, refl, sym, ap, false, none, some, List, [], ◌∷◌, ◌++◌, arith}
use aiotc.Slab.{Ptr}
use aiotc.Queue.{Node, Cell}
use aiotc.Queue.Chain.{Chain, store, link}
use aiotc.Queue.Chain.Segments.{
  has, has-append, last_addr-append, nil, cons, head-of, head-nil, snoc,
}
use aiotc.Queue.Chain.Unlink.{IsChain, Seg-at, set_next-at}

module _ {A : Type 0} where
  last_of :
      (c : Cell A) (cs : List (Cell A))
      → (b : List (Cell A)) × (t : Cell A) × (c ∷ cs ≡ b ++ t ∷ [])
  last_of c [] = ([], c, refl)
  last_of c (d ∷ ds) = let (b, t, e) = last_of d ds in (c ∷ b, t, ap (◌∷◌ c) e)

  -- A chain with a node more at its end.
  pub record IsLinked (q q' : Chain A) (cs : List (Cell A)) : Type 0 where
    pub chain : IsChain q' cs
    pub same_max : q'.use_max ≡ q.use_max
    pub longer : q'.que_len ≡ q.que_len + 1

  link-snoc :
      (a : Ptr) (n : Node A) (q : Chain A) (b : List (Cell A)) (t : Cell A) (p : Ptr)
      → q.head ≡ some p
      → IsChain q (b ++ t ∷ [])
      → has a (b ++ t ∷ []) ≡ false
      → (q' : Chain A) × (link a n q ≡ some q')
        × IsLinked q q' ((b ++ t ∷ []) ++ record { addr = a; node = n } ∷ [])
  unfolding link
  link-snoc a n q b t p hd h out =
      let heap = store q.heap a (record { node = n; next = none }) in
      let (old, e, _, _) = Seg-at b t [] h.seg in
      let e' : heap t.addr ≡ some (record { node = t.node; next = old }) =
        ground (arith, has-append a b (t ∷ [])) in
      (
        record q {
          heap = store heap t.addr (record { node = t.node; next = some a });
          tail = some a;
          que_len = q.que_len + 1;
        },
        rw (hd, h.last, last_addr-append b t [], set_next-at heap t old (some a) e') refl,
        rw (append_assoc b (t ∷ []) (record { addr = a; node = n } ∷ [])) (record {
          chain = record {
            seg = snoc b t (record { addr = a; node = n }) h.seg out;
            last = sym (last_addr-append b t (record { addr = a; node = n } ∷ []));
          };
          same_max = refl;
          longer = refl;
        }),
      )

  link-some :
      (a : Ptr) (n : Node A) (q : Chain A) (cs b : List (Cell A)) (t : Cell A) (p : Ptr)
      → cs ≡ b ++ t ∷ []
      → q.head ≡ some p
      → IsChain q cs
      → has a cs ≡ false
      → (q' : Chain A) × (link a n q ≡ some q')
        × IsLinked q q' (cs ++ record { addr = a; node = n } ∷ [])
  link-some a n q cs b t p e hd h out =
      rw e (link-snoc a n q b t p hd (rw (sym e) h) (rw (sym e) out))

  pub link-IsLinked :
      (a : Ptr) (n : Node A) (q : Chain A) (cs : List (Cell A))
      → IsChain q cs
      → has a cs ≡ false
      → (q' : Chain A) × (link a n q ≡ some q')
        × IsLinked q q' (cs ++ record { addr = a; node = n } ∷ [])
  unfolding link
  link-IsLinked a n q [] h out = (
    record q {
      heap = store q.heap a (record { node = n; next = none });
      head = some a;
      tail = some a;
      que_len = q.que_len + 1;
    },
    rw (head-nil h.seg) refl,
    record {
      chain = record { seg = cons (ground arith) refl nil; last = refl };
      same_max = refl;
      longer = refl;
    },
  )
  link-IsLinked a n q (c ∷ cs) h out =
      let (b, t, e) = last_of c cs in link-some a n q (c ∷ cs) b t c.addr e (head-of h.seg) h out
