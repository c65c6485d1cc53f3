-- ===== src/Queue/Delete.antt =====
-- delFromQueue and searchFromQueue (work/share/src/share.cpp).
use aiotc.Prelude.{
  ◌≡◌, refl, sym, ap, inl, inr, Bool, true, false, Option, none, some, List, [], ◌∷◌, ◌++◌, arith,
  All, Bool-cases,
}
use aiotc.Queue.{
  Cell, Queue, append_node, remove_first, del_from_queue, find_first, search_from_queue,
}

module _ {A : Type 0} (c : Cell A → Bool) where
  -- `out` is the first node of `ps` that meets the condition, and `rest` the others in their order.
  pub data Deletes (ps : List (Cell A)) (out : Option (Cell A)) (rest : List (Cell A))
      : Type 0 where
    absent : All (λ p. c p ≡ false) ps → out ≡ none → rest ≡ ps → Deletes ps out rest
    present :
        (before : List (Cell A)) (p : Cell A) (after : List (Cell A))
        → ps ≡ before ++ p ∷ after
        → All (λ p. c p ≡ false) before
        → c p ≡ true
        → out ≡ some p
        → rest ≡ before ++ after
        → Deletes ps out rest

  later :
      (p : Cell A) {ps : List (Cell A)} {out : Option (Cell A)} {rest : List (Cell A)}
      → c p ≡ false
      → Deletes ps out rest
      → Deletes (p ∷ ps) out (p ∷ rest)
  later p f (absent none_before o r) = absent (f, none_before) o (ap (◌∷◌ p) r)
  later p f (present b x a e skipped t o r) =
      present (p ∷ b) x a (ap (◌∷◌ p) e) (f, skipped) t o (ap (◌∷◌ p) r)

  remove_first-Deletes :
      (ps : List (Cell A)) → Deletes ps (remove_first c ps).0 (remove_first c ps).1
  unfolding remove_first
  remove_first-Deletes [] = absent tt refl refl
  remove_first-Deletes (p ∷ ps) = elim (Bool-cases (c p)) [
    | inl t ↦ rw t (present [] p ps refl tt t refl refl)
    | inr f ↦ rw f (later p f (remove_first-Deletes ps))
  ]

  remove_first-find : (ps : List (Cell A)) → (remove_first c ps).0 ≡ find_first c ps
  unfolding remove_first find_first
  remove_first-find [] = refl
  remove_first-find (p ∷ ps) = ground (arith, remove_first-find ps)

  remove_first-none :
      (ps : List (Cell A)) → (remove_first c ps).0 ≡ none → (remove_first c ps).1 ≡ ps
  unfolding remove_first
  remove_first-none [] e = refl
  remove_first-none (p ∷ ps) e = ground (arith, remove_first-none ps)

  after_delete_cases :
      (q : Queue A)
      → ((del_from_queue c q).0 ≡ (remove_first c q.nodes).0)
        × ((del_from_queue c q).1.nodes ≡ (remove_first c q.nodes).1)
  unfolding del_from_queue
  after_delete_cases q = ground (arith, remove_first-none q.nodes)

  -- delFromQueue takes out the first node that meets the condition and leaves the others in their
  -- order, or leaves the queue's nodes as they are where none meets it.
  del_from_queue-Deletes :
      (q : Queue A) → Deletes q.nodes (del_from_queue c q).0 (del_from_queue c q).1.nodes
  del_from_queue-Deletes q =
      rw ((after_delete_cases q).0, (after_delete_cases q).1) (remove_first-Deletes q.nodes)

  -- searchFromQueue finds the node that delFromQueue would take out.
  search-del : (q : Queue A) → search_from_queue c q ≡ (del_from_queue c q).0
  unfolding search_from_queue
  search-del q = rw (after_delete_cases q).0 (sym (remove_first-find q.nodes))

  -- The two ends of a walk: no node meets the condition, or the last one is the first to do so.
  pub remove_first-absent :
      (ps : List (Cell A)) → All (λ p. c p ≡ false) ps → remove_first c ps ≡ (none, ps)
  unfolding remove_first
  remove_first-absent [] all = refl
  remove_first-absent (p ∷ ps) all = ground (arith, remove_first-absent ps all.1)

  pub remove_first-last :
      (ps : List (Cell A)) (x : Cell A)
      → All (λ p. c p ≡ false) ps
      → c x ≡ true
      → remove_first c (ps ++ x ∷ []) ≡ (some x, ps)
  unfolding remove_first
  remove_first-last [] x all t = ground arith
  remove_first-last (p ∷ ps) x all t = ground (arith, remove_first-last ps x all.1 t)

  -- A node appended to a queue in which no node meets the condition is taken out again.
  pub del_from_queue-append_node :
      (q : Queue A) (x : Cell A)
      → All (λ p. c p ≡ false) q.nodes
      → c x ≡ true
      → del_from_queue c (append_node q x) ≡ (some x, q)
  unfolding del_from_queue
  del_from_queue-append_node q x all t = ground (arith, remove_first-last q.nodes x all t)

  pub del_from_queue-absent :
      (q : Queue A) → All (λ p. c p ≡ false) q.nodes → del_from_queue c q ≡ (none, q)
  unfolding del_from_queue
  del_from_queue-absent q all = ground (arith, remove_first-absent q.nodes all)
