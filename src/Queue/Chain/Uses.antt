-- ===== src/Queue/Chain/Uses.antt =====
-- delFromQueueByUser over the pointers of a queue, against the same call on the list of its nodes
-- (work/share/src/share.cpp).
use mathlib.Core.List.{append_assoc}
use aiotc.Prelude.{
  ℕ, zero, suc, ◌≤◌, ◌≡◌, refl, sym, ap, ◌∙◌, Bool, true, false, ◌||◌, Option, none, some, List, [],
  ◌∷◌, ◌++◌, arith, All, length, leb, ◌==◌, if◌then◌else◌, inl, inr, Bool-cases,
}
use aiotc.Slab.{Ptr, Slab}
use aiotc.Queue.{Cell, Queue, use_first, used_once_more, del_from_queue_by_user}
use aiotc.Queue.Chain.{Heap, Chain, store, use_at, use_walk, use_from_chain}
use aiotc.Queue.Chain.Segments.{has, has-append, last_addr, frame-store, Seg, nil, cons}
use aiotc.Queue.Chain.Unlink.{IsChain, IsUnlinked, Prev, at_head, behind, unlink-any}
use aiotc.Queue.Chain.Ops.{Refines}

module _ {A : Type 0} where
  has-used :
      (a : Ptr) (ws : List (Cell A)) (x : Cell A) (ds : List (Cell A))
      → has a (ws ++ used_once_more x ∷ ds) ≡ has a (ws ++ x ∷ ds)
  has-used a [] x ds = refl
  has-used a (w ∷ ws) x ds = ap (◌||◌ (a == w.addr)) (has-used a ws x ds)

  last-used :
      (ws : List (Cell A)) (x : Cell A) (ds : List (Cell A))
      → last_addr (ws ++ used_once_more x ∷ ds) ≡ last_addr (ws ++ x ∷ ds)
  last-used [] x [] = refl
  last-used [] x (d ∷ ds) = refl
  last-used (w ∷ []) x ds = last-used [] x ds
  last-used (w ∷ w' ∷ ws) x ds = last-used (w' ∷ ws) x ds

  -- A write to `val` of a node of a segment.
  Seg-used :
      {h : Heap A} (ws : List (Cell A)) {p next : Option Ptr} (x : Cell A) (ds : List (Cell A))
      → Seg h next ds
      → Seg h p (ws ++ x ∷ ds)
      → Seg
          (store h x.addr (record { node = (used_once_more x).node; next = next }))
          p
          (ws ++ used_once_more x ∷ ds)
  Seg-used [] x ds on (cons e apart seg) = cons (ground arith) apart (frame-store x.addr _ on apart)
  Seg-used (w ∷ ws) x ds on (cons e apart seg) =
      cons (ground (arith, has-append w.addr ws (x ∷ ds))) (has-used w.addr ws x ds ∙ apart)
        (Seg-used ws x ds on seg)

module _ {A : Type 0} (c : Cell A → Bool) (q : Chain A) where
  -- What the walk over the nodes `ds`, with `ws` behind it, leaves, for the outcome of the walk over
  -- the list.
  data Uses (ws ds : List (Cell A)) (out : Option (Cell A) × Bool × List (Cell A))
      (r : Option (Option (Cell A) × Chain A)) : Type 0 where
    absent : out ≡ (none, false, ds) → r ≡ some (none, q) → Uses ws ds out r
    stays :
        (x : Cell A) (rest : List (Cell A)) (q' : Chain A)
        → out ≡ (some x, false, rest)
        → r ≡ some (some x, q')
        → IsChain q' (ws ++ rest)
        → q'.use_max ≡ q.use_max
        → q'.que_len ≡ q.que_len
        → Uses ws ds out r
    leaves :
        (x : Cell A) (rest : List (Cell A)) (q' : Chain A)
        → out ≡ (some x, true, rest)
        → r ≡ some (some x, q')
        → IsUnlinked q q' (ws ++ rest)
        → Uses ws ds out r

  skip :
      (ws ds : List (Cell A)) (x : Cell A) (r : Option (Option (Cell A) × Chain A))
      → c x ≡ false
      → Uses (ws ++ x ∷ []) ds (use_first q.use_max c ds) r
      → Uses ws (x ∷ ds) (use_first q.use_max c (x ∷ ds)) r
  unfolding use_first
  skip ws ds x r f (absent e e') = absent (rw (f, e) refl) e'
  skip ws ds x r f (stays y rest q' e e' h m l) =
      stays y (x ∷ rest) q' (rw (f, e) refl) e' (rw (sym (append_assoc ws (x ∷ []) rest)) h) m l
  skip ws ds x r f (leaves y rest q' e e' u) =
      leaves y (x ∷ rest) q' (rw (f, e) refl) e' (rw (sym (append_assoc ws (x ∷ []) rest)) u)

  at-Uses :
      (ws ds : List (Cell A)) (x : Cell A) (prev next : Option Ptr)
      → c x ≡ true
      → Prev prev ws
      → IsChain q (ws ++ x ∷ ds)
      → has x.addr ds ≡ false
      → Seg q.heap next ds
      → Uses ws
          (x ∷ ds)
          (use_first q.use_max c (x ∷ ds))
          (use_at q prev x.addr (record { node = x.node; next = next }))
  unfolding use_at use_first
  at-Uses ws ds x prev next t at h apart on =
      let x' = used_once_more x in
      let q1 = record q { heap = store q.heap x.addr (record { node = x'.node; next = next }) } in
      let h1 : IsChain q1 (ws ++ x' ∷ ds) = record {
        seg = Seg-used ws x ds on h.seg;
        last = h.last ∙ sym (last-used ws x ds);
      } in
      elim (Bool-cases (leb q.use_max x'.val)) [
        | inr f ↦ rw (t, f) (stays x' (x' ∷ ds) q1 refl refl h1 refl refl)
        | inl lt ↦
            let on1 = frame-store x.addr (record { node = x'.node; next = next }) on apart in
            let (q', eq, u) = unlink-any q1 ws x' ds prev next at h1 apart on1 in
            rw (t, lt, eq)
              (leaves x' ds q' refl refl
                (record { chain = u.chain; same_max = u.same_max; shorter = u.shorter }))
      ]

  walk-nil :
      (fuel : ℕ) (ws : List (Cell A)) (prev : Option Ptr)
      → Uses ws [] (use_first q.use_max c []) (use_walk fuel c q prev none)
  unfolding use_walk use_first
  walk-nil fuel ws prev = absent refl refl

  walk-at :
      (fuel : ℕ) (x : Cell A) (prev next : Option Ptr)
      → q.heap x.addr ≡ some (record { node = x.node; next = next })
      → use_walk (suc fuel) c q prev (some x.addr) ≡ (
          if c x
          then use_at q prev x.addr (record { node = x.node; next = next })
          else use_walk fuel c q (some x.addr) next)
  unfolding use_walk
  walk-at fuel x prev next e = rw e refl

  walk-Uses :
      (fuel : ℕ) (ds ws : List (Cell A)) (prev p : Option Ptr)
      → Prev prev ws
      → IsChain q (ws ++ ds)
      → Seg q.heap p ds
      → length ds ≤ fuel
      → Uses ws ds (use_first q.use_max c ds) (use_walk fuel c q prev p)
  walk-Uses fuel [] ws prev p at h nil le = walk-nil fuel ws prev
  walk-Uses zero (x ∷ ds) ws prev p at h seg le = absurd (omega arith)
  walk-Uses (suc fuel) (x ∷ ds) ws prev p at h (cons {next = next} e apart seg) le =
      elim (Bool-cases (c x)) [
        | inr f ↦
            let h' : IsChain q ((ws ++ x ∷ []) ++ ds) = rw (append_assoc ws (x ∷ []) ds) h in
            rw (walk-at fuel x prev next e, f)
              (skip ws ds x _ f (
                walk-Uses fuel ds (ws ++ x ∷ []) (some x.addr) next (behind ws x refl) h' seg
                  (omega arith)))
        | inl t ↦ rw (walk-at fuel x prev next e, t) (at-Uses ws ds x prev next t at h apart seg)
      ]

module _ (s : Slab) {A : Type 0} where
  live-use_first :
      (m : ℕ) (c : Cell A → Bool) (sp : s.Pool) (ds : List (Cell A))
      → All (λ x. s.live sp x.addr ≡ true) ds
      → All (λ x. s.live sp x.addr ≡ true) (use_first m c ds).2
  unfolding use_first
  live-use_first m c sp [] own = tt
  live-use_first m c sp (x ∷ ds) own = elim (Bool-cases (c x)) [
    | inr f ↦ rw f (own.0, live-use_first m c sp ds own.1)
    | inl t ↦ elim (Bool-cases (leb m (used_once_more x).val)) [
      | inl l ↦ rw (t, l) own.1
      | inr g ↦ rw (t, g) own
    ]
  ]

  -- delFromQueueByUser takes out, or counts, the same node.
  pub use-Refines :
      (fuel : ℕ) (c : Cell A → Bool) (sp : s.Pool) (q : Chain A) (l : Queue A)
      → Refines s sp q l
      → length l.nodes ≤ fuel
      → (q' : Chain A) × (use_from_chain fuel c q ≡ some ((del_from_queue_by_user c l).0, q'))
        × Refines s sp q' (del_from_queue_by_user c l).1
  unfolding use_from_chain del_from_queue_by_user
  use-Refines fuel c sp q l h le =
      let own = live-use_first l.use_max c sp l.nodes h.owned in
      let same : use_first q.use_max c l.nodes ≡ use_first l.use_max c l.nodes =
        rw h.same_max refl in
      elim (walk-Uses c q fuel l.nodes [] q.head q.head at_head h.chain h.chain.seg le) [
        | absent e e' ↦ rw (sym same ∙ e) (q, e', h)
        | stays x rest q' e e' h' m n ↦
            let eq = sym same ∙ e in
            rw eq (
              q',
              e',
              record {
                chain = h';
                same_max = m ∙ h.same_max;
                same_len = n ∙ h.same_len;
                owned = rw eq at own;
              },
            )
        | leaves x rest q' e e' u ↦
            let eq = sym same ∙ e in
            rw eq (
              q',
              e',
              record {
                chain = u.chain;
                same_max = u.same_max ∙ h.same_max;
                same_len = omega (arith, u.shorter, h.same_len);
                owned = rw eq at own;
              },
            )
      ]
