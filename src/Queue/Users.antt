-- ===== src/Queue/Users.antt =====
-- Calls of delFromQueueByUser on one node (work/share/src/share.cpp).
use aiotc.Prelude.{
  ℕ, zero, suc, ◌+◌, ◌-◌, ◌≤◌, ◌<◌, ◌≡◌, refl, ◌∙◌, ap, Bool, true, List, ◌∷◌, arith,
}
use aiotc.Queue.{Cell, Queue, used_once_more, del_from_queue_by_user}

module _ {A : Type 0} (c : Cell A → Bool) where
  -- `k` calls of delFromQueueByUser.
  unfoldable pub use_times : ℕ → Queue A → Queue A
  use_times zero q = q
  use_times (suc k) q = use_times k (del_from_queue_by_user c q).1

  abbrev pub used : ℕ → Cell A → Cell A
  used k p = record p { node = record (p.node) { val = p.val + k } }

  by_user-keep :
      (q : Queue A) (p : Cell A) (ps : List (Cell A))
      → q.nodes ≡ p ∷ ps
      → c p ≡ true
      → p.val + 1 < q.use_max
      → (del_from_queue_by_user c q).1 ≡ record q { nodes = used_once_more p ∷ ps }
  unfolding del_from_queue_by_user
  by_user-keep q p ps e t lt = ground arith

  by_user-drop :
      (q : Queue A) (p : Cell A) (ps : List (Cell A))
      → q.nodes ≡ p ∷ ps
      → c p ≡ true
      → q.use_max ≤ p.val + 1
      → (del_from_queue_by_user c q).1 ≡ record q { nodes = ps; que_len = q.que_len - 1 }
  unfolding del_from_queue_by_user
  by_user-drop q p ps e t lt = ground arith

  module _ (same : (x : Cell A) → c (used_once_more x) ≡ c x) where
    use_times-keep :
        (k : ℕ) (q : Queue A) (p : Cell A) (ps : List (Cell A))
        → q.nodes ≡ p ∷ ps
        → c p ≡ true
        → p.val + k < q.use_max
        → use_times k q ≡ record q { nodes = used k p ∷ ps }
    unfolding use_times
    use_times-keep zero q p ps e t lt = ground arith
    use_times-keep (suc k) q p ps e t lt =
        rw (by_user-keep q p ps e t (omega arith)) (
          use_times-keep k _ (used_once_more p) ps refl (same p ∙ t) (omega arith) ∙ ground (arith))

    still : (k : ℕ) (p : Cell A) → c p ≡ true → c (used k p) ≡ true
    still zero p t = let e : used 0 p ≡ p = ground arith in rw e t
    still (suc k) p t =
        let e : used (suc k) p ≡ used k (used_once_more p) = ground arith in
        rw e (still k (used_once_more p) (same p ∙ t))

    use_times-last :
        (k : ℕ) (q : Queue A) → use_times (suc k) q ≡ (del_from_queue_by_user c (use_times k q)).1
    unfolding use_times
    use_times-last zero q = refl
    use_times-last (suc k) q = use_times-last k (del_from_queue_by_user c q).1

    -- Where the condition does not look at `val`, a first node that meets it and that `k + 1` more
    -- users have to take stays at the front through `k` calls of delFromQueueByUser, each counted
    -- in its `val`, and the next call takes it off; the nodes behind it are not touched.
    pub use_times-lifetime :
        (k : ℕ) (q : Queue A) (p : Cell A) (ps : List (Cell A))
        → q.nodes ≡ p ∷ ps
        → c p ≡ true
        → p.val + suc k ≡ q.use_max
        → ((use_times k q).nodes ≡ used k p ∷ ps) × ((use_times (suc k) q).nodes ≡ ps)
    use_times-lifetime k q p ps e t n =
        let kept = use_times-keep k q p ps e t (omega arith) in
        (
          ap (λ r. r.nodes) kept,
          rw (use_times-last k q, kept)
              (ap (λ r. r.nodes) (by_user-drop _ (used k p) ps refl (still k p t) (omega arith))),
        )
