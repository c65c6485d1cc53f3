-- ===== src/Queue/Chain/Walks.antt =====
-- The loops over the pointers of a queue, against the same calls on the list of its nodes
-- (work/share/src/share.cpp).
use mathlib.Core.List.{append_assoc}
use aiotc.Prelude.{
  ℕ, zero, suc, ◌-◌, ◌≤◌, ◌≡◌, refl, sym, ◌∙◌, Bool, true, false, Option, none, some, List, [], ◌∷◌,
  ◌++◌, arith, All, length, inl, inr, Bool-cases,
}
use aiotc.Slab.{Ptr, Slab}
use aiotc.Queue.{
  Cell, Queue, remove_first, after_delete, del_from_queue, find_first, search_from_queue,
  free_shm_queue, free_nodes,
}
use aiotc.Queue.Chain.{Heap, Chain, del_walk, del_from_chain, search_walk, free_walk, free_chain}
use aiotc.Queue.Chain.Segments.{Seg, nil, cons}
use aiotc.Queue.Chain.Unlink.{IsChain, IsUnlinked, Prev, at_head, behind, unlink-any}
use aiotc.Queue.Chain.Ops.{Refines}

module _ {A : Type 0} (c : Cell A → Bool) (q : Chain A) where
  -- What the walk over the nodes `ds`, with `ws` behind it, leaves.
  data Dels (ws ds : List (Cell A)) (r : Option (Option (Cell A) × Chain A)) : Type 0 where
    absent : (remove_first c ds).0 ≡ none → r ≡ some (none, q) → Dels ws ds r
    found :
        (x : Cell A) (q' : Chain A)
        → (remove_first c ds).0 ≡ some x
        → r ≡ some (some x, q')
        → IsUnlinked q q' (ws ++ (remove_first c ds).1)
        → Dels ws ds r

  skip :
      (ws ds : List (Cell A)) (x : Cell A) (r : Option (Option (Cell A) × Chain A))
      → c x ≡ false
      → Dels (ws ++ x ∷ []) ds r
      → Dels ws (x ∷ ds) r
  unfolding remove_first
  skip ws ds x r f (absent e e') = absent (rw (f, remove_first) e) e'
  skip ws ds x r f (found y q' e e' u) =
      found y q' (rw (f, remove_first) e) e'
        (rw (f, remove_first, sym (append_assoc ws (x ∷ []) (remove_first c ds).1)) u)

  walk-Dels :
      (fuel : ℕ) (ds ws : List (Cell A)) (prev p : Option Ptr)
      → Prev prev ws
      → IsChain q (ws ++ ds)
      → Seg q.heap p ds
      → length ds ≤ fuel
      → Dels ws ds (del_walk fuel c q prev p)
  unfolding del_walk remove_first
  walk-Dels fuel [] ws prev p at h nil le = absent refl refl
  walk-Dels zero (x ∷ ds) ws prev p at h seg le = absurd (omega arith)
  walk-Dels (suc fuel) (x ∷ ds) ws prev p at h (cons {next = next} e apart seg) le =
      elim (Bool-cases (c x)) [
        | inr f ↦
            let h' : IsChain q ((ws ++ x ∷ []) ++ ds) = rw (append_assoc ws (x ∷ []) ds) h in
            rw (e, f)
              (skip ws ds x _ f (
                walk-Dels fuel ds (ws ++ x ∷ []) (some x.addr) next (behind ws x refl) h' seg
                  (omega arith)))
        | inl t ↦
            let (q', eq, u) = unlink-any q ws x ds prev next at h apart seg in
            found x q' (rw t refl) (rw (e, t, eq) refl) (rw t u)
      ]

module _ (s : Slab) {A : Type 0} where
  -- searchFromQueue finds the same node.
  search_walk-find :
      (c : Cell A → Bool) (heap : Heap A) (fuel : ℕ) (ds : List (Cell A)) (p : Option Ptr)
      → Seg heap p ds
      → length ds ≤ fuel
      → search_walk fuel c heap p ≡ some (find_first c ds)
  unfolding search_walk find_first
  search_walk-find c heap fuel [] p nil le = refl
  search_walk-find c heap zero (x ∷ ds) p seg le = absurd (omega arith)
  search_walk-find c heap (suc fuel) (x ∷ ds) p (cons {next = next} e apart seg) le =
      let later = search_walk-find c heap fuel ds next seg (omega arith) in
      elim (Bool-cases (c x)) [ inl t ↦ rw (e, t) refl | inr f ↦ rw (e, f, later) refl ]

  -- freeShmQueue gives back the same blocks.
  free_walk-nodes :
      (heap : Heap A) (fuel : ℕ) (sp : s.Pool) (ds : List (Cell A)) (p : Option Ptr)
      → Seg heap p ds
      → length ds ≤ fuel
      → free_walk s fuel heap sp p ≡ some (free_nodes s (λ sp _. sp) sp ds)
  unfolding free_walk free_nodes
  free_walk-nodes heap fuel sp [] p nil le = refl
  free_walk-nodes heap zero sp (x ∷ ds) p seg le = absurd (omega arith)
  free_walk-nodes heap (suc fuel) sp (x ∷ ds) p (cons {next = next} e apart seg) le =
      rw e (free_walk-nodes heap fuel _ ds next seg (omega arith))

  live-remove_first :
      (c : Cell A → Bool) (sp : s.Pool) (ds : List (Cell A))
      → All (λ x. s.live sp x.addr ≡ true) ds
      → All (λ x. s.live sp x.addr ≡ true) (remove_first c ds).1
  unfolding remove_first
  live-remove_first c sp [] own = tt
  live-remove_first c sp (x ∷ ds) own = elim (Bool-cases (c x)) [
    | inl t ↦ rw t own.1
    | inr f ↦ rw f (own.0, live-remove_first c sp ds own.1)
  ]

  after_delete-none :
      (l : Queue A) (out : Option (Cell A) × List (Cell A))
      → out.0 ≡ none
      → after_delete l out ≡ (none, l)
  after_delete-none l (o, rest) e = rw (e, after_delete) refl

  after_delete-some :
      (l : Queue A) (out : Option (Cell A) × List (Cell A)) (x : Cell A)
      → out.0 ≡ some x
      → after_delete l out ≡ (some x, record l { nodes = out.1; que_len = l.que_len - 1 })
  after_delete-some l (o, rest) x e = rw (e, after_delete) refl

  -- delFromQueue takes out the same node.
  pub del-Refines :
      (fuel : ℕ) (c : Cell A → Bool) (sp : s.Pool) (q : Chain A) (l : Queue A)
      → Refines s sp q l
      → length l.nodes ≤ fuel
      → (q' : Chain A) × (del_from_chain fuel c q ≡ some ((del_from_queue c l).0, q'))
        × Refines s sp q' (del_from_queue c l).1
  unfolding del_from_chain del_from_queue
  del-Refines fuel c sp q l h le =
      elim (walk-Dels c q fuel l.nodes [] q.head q.head at_head h.chain h.chain.seg le) [
        | absent e e' ↦ rw (after_delete-none l (remove_first c l.nodes) e) (q, e', h)
        | found x q' e e' u ↦ rw (after_delete-some l (remove_first c l.nodes) x e) (
          q',
          e',
          record {
            chain = u.chain;
            same_max = u.same_max ∙ h.same_max;
            same_len = omega (arith, u.shorter, h.same_len);
            owned = live-remove_first c sp l.nodes h.owned;
          },
        )
      ]

  -- freeShmQueue leaves an empty queue and the same blocks.
  pub free-Refines :
      (fuel : ℕ) (sp : s.Pool) (q : Chain A) (l : Queue A)
      → Refines s sp q l
      → length l.nodes ≤ fuel
      → (q' : Chain A) × (free_chain s fuel sp q
          ≡ some ((free_shm_queue s (λ sp _. sp) sp l).0, q'))
        × Refines s (free_shm_queue s (λ sp _. sp) sp l).0 q' (free_shm_queue s (λ sp _. sp) sp l).1
  unfolding free_chain free_shm_queue
  free-Refines fuel sp q l h le = (
    record q { head = none; tail = none; que_len = 0 },
    rw (free_walk-nodes q.heap fuel sp l.nodes q.head h.chain.seg le) refl,
    record {
      chain = record { seg = nil; last = refl };
      same_max = h.same_max;
      same_len = refl;
      owned = tt;
    },
  )

  pub search-Refines :
      (fuel : ℕ) (c : Cell A → Bool) (sp : s.Pool) (q : Chain A) (l : Queue A)
      → Refines s sp q l
      → length l.nodes ≤ fuel
      → search_walk fuel c q.heap q.head ≡ some (search_from_queue c l)
  unfolding search_from_queue
  search-Refines fuel c sp q l h le = search_walk-find c q.heap fuel l.nodes q.head h.chain.seg le
