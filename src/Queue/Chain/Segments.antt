-- ===== src/Queue/Chain/Segments.antt =====
-- List segments in a memory of nodes: what the pointers of a queue lead through.
use aiotc.Prelude.{
  All, ◌≡◌, refl, Bool, true, false, ◌||◌, Option, none, some, List, [], ◌∷◌, ◌++◌, arith, ◌==◌,
}
use aiotc.Slab.{Ptr}
use aiotc.Queue.{Cell}
use aiotc.Queue.Chain.{Link, Heap, store, eq_ptr}

pub eq_self : (a : Ptr) → eq_ptr a (some a) ≡ true
eq_self a = ground arith

module _ {A : Type 0} where
  -- Whether a node of the list has the address.
  abbrev pub has : Ptr → List (Cell A) → Bool
  has a [] = false
  has a (c ∷ cs) = a == c.addr || has a cs

  pub has-append : (a : Ptr) (xs ys : List (Cell A)) → has a (xs ++ ys) ≡ (has a xs || has a ys)
  has-append a [] ys = refl
  has-append a (x ∷ xs) ys = ground (arith, has-append a xs ys)

  -- The address of the last node, NULL where there is none.
  abbrev pub last_addr : List (Cell A) → Option Ptr
  last_addr [] = none
  last_addr (c ∷ []) = some c.addr
  last_addr (c ∷ d ∷ ds) = last_addr (d ∷ ds)

  -- From the pointer the `next` pointers lead through the nodes, which have distinct addresses, to
  -- NULL.
  pub data Seg (h : Heap A) : Option Ptr → List (Cell A) → Type 0 where
    nil : Seg h none []
    cons :
        {c : Cell A} {next : Option Ptr} {cs : List (Cell A)}
        → h c.addr ≡ some (record { node = c.node; next = next })
        → has c.addr cs ≡ false
        → Seg h next cs
        → Seg h (some c.addr) (c ∷ cs)

  -- A segment stays through a write to an address that is none of its own.
  pub frame-store :
      {h : Heap A} {p : Option Ptr} {cs : List (Cell A)} (a : Ptr) (l : Link A)
      → Seg h p cs
      → has a cs ≡ false
      → Seg (store h a l) p cs
  frame-store a l nil out = nil
  frame-store a l (cons {c} e apart seg) out =
      cons (ground arith) apart (frame-store a l seg (ground arith))

  pub last_addr-append :
      (xs : List (Cell A)) (y : Cell A) (ys : List (Cell A))
      → last_addr (xs ++ y ∷ ys) ≡ last_addr (y ∷ ys)
  last_addr-append [] y ys = refl
  last_addr-append (x ∷ []) y ys = refl
  last_addr-append (x ∷ x' ∷ xs) y ys = last_addr-append (x' ∷ xs) y ys

  pub eq_last : (a : Ptr) (cs : List (Cell A)) → has a cs ≡ false → eq_ptr a (last_addr cs) ≡ false
  eq_last a [] h = refl
  eq_last a (c ∷ []) h = ground arith
  eq_last a (c ∷ d ∷ ds) h = eq_last a (d ∷ ds) (ground arith)

  -- The first node of a segment.
  pub head-of :
      {h : Heap A} {p : Option Ptr} {c : Cell A} {cs : List (Cell A)}
      → Seg h p (c ∷ cs)
      → p ≡ some c.addr
  head-of (cons e apart seg) = refl

  pub head-nil : {h : Heap A} {p : Option Ptr} → Seg h p [] → p ≡ none
  head-nil nil = refl

  -- The nodes before a part of a segment are none of that part.
  pub Seg-apart :
      {h : Heap A} (b : List (Cell A)) {p : Option Ptr} (rest : List (Cell A))
      → Seg h p (b ++ rest)
      → All (λ c. has c.addr rest ≡ false) b
  Seg-apart [] rest seg = tt
  Seg-apart (c ∷ b) rest (cons e apart seg) =
      (ground (arith, has-append c.addr b rest), Seg-apart b rest seg)

  pub All-not-has :
      (x : Cell A) (cs : List (Cell A))
      → has x.addr cs ≡ false
      → All (λ c. has c.addr (x ∷ []) ≡ false) cs
  All-not-has x [] out = tt
  All-not-has x (c ∷ cs) out = (ground arith, All-not-has x cs (ground arith))

  -- A write to `next` of a node leads the segment on to other nodes, none of which stand before.
  pub splice :
      {h : Heap A} {q : Option Ptr} (b : List (Cell A)) {p : Option Ptr} (t : Cell A)
      (mid rest : List (Cell A))
      → Seg h p (b ++ t ∷ mid)
      → Seg h q rest
      → All (λ c. has c.addr rest ≡ false) (b ++ t ∷ [])
      → Seg (store h t.addr (record { node = t.node; next = q })) p (b ++ t ∷ rest)
  splice [] t mid rest (cons e apart seg) on out =
      cons (ground arith) out.0 (frame-store t.addr _ on out.0)
  splice (c ∷ b) t mid rest (cons e apart seg) on out =
      cons (ground (arith, has-append c.addr b (t ∷ mid)))
        (ground (arith, has-append c.addr b (t ∷ mid), has-append c.addr b (t ∷ rest)))
        (splice b t mid rest seg on out.1)

  -- A node is added behind the last one.
  pub snoc :
      {h : Heap A} {p : Option Ptr} (cs : List (Cell A)) (t x : Cell A)
      → Seg h p (cs ++ t ∷ [])
      → has x.addr (cs ++ t ∷ []) ≡ false
      → Seg
          (store
            (store h x.addr (record { node = x.node; next = none }))
            t.addr
            (record { node = t.node; next = some x.addr }))
          p
          (cs ++ t ∷ x ∷ [])
  snoc cs t x seg out =
      splice cs t [] (x ∷ []) (frame-store x.addr _ seg out) (cons (ground arith) refl nil)
        (All-not-has x (cs ++ t ∷ []) out)
