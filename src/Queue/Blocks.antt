-- ===== src/Queue/Blocks.antt =====
-- The blocks of a queue's nodes, and freeShmQueue (work/share/src/share.cpp).
use aiotc.Prelude.{
  ◌≡◌, refl, Bool, false, not, ◌&&◌, ◌||◌, Option, none, some, List, [], ◌∷◌, arith, ◌==◌,
}
use aiotc.Slab.{Ptr, Slab}
use aiotc.Queue.{Cell, Queue, free_arg, free_nodes, free_shm_queue}

abbrev pub is_arg : Ptr → Option Ptr → Bool
is_arg b none = false
is_arg b (some a) = b == a

-- The blocks that a list of nodes owns: each node's own, and the one behind its `arg`.
unfoldable pub owns : {A : Type 0} → Ptr → List (Cell A) → Bool
owns b [] = false
owns b (p ∷ ps) = (b == p.addr || is_arg b p.arg) || owns b ps

pub free_arg-live :
    (s : Slab) (sp : s.Pool) (o : Option Ptr) (b : Ptr)
    → s.live (free_arg s sp o) b ≡ (not (is_arg b o) && s.live sp b)
free_arg-live s sp none b = refl
free_arg-live s sp (some a) b = s.free_live sp a b

module _ (s : Slab) {A : Type 0} where
  free_nodes-live :
      (sp : s.Pool) (ps : List (Cell A)) (b : Ptr)
      → s.live (free_nodes s (λ sp _. sp) sp ps) b ≡ (not (owns b ps) && s.live sp b)
  unfolding free_nodes owns
  free_nodes-live sp [] b = refl
  free_nodes-live sp (p ∷ ps) b = ground (
    arith,
    free_nodes-live (s.free (free_arg s sp p.arg) p.addr) ps b,
    s.free_live (free_arg s sp p.arg) p.addr b,
    free_arg-live s sp p.arg b,
  )

  -- With no callback, freeShmQueue leaves a queue with no node and a count of 0, and of the blocks
  -- handed out exactly those that no node of the queue owned.
  free_shm_queue-live :
      (sp : s.Pool) (q : Queue A)
      → ((free_shm_queue s (λ sp _. sp) sp q).1.nodes ≡ [])
        × ((free_shm_queue s (λ sp _. sp) sp q).1.que_len ≡ 0)
        × ((b : Ptr)
            → s.live (free_shm_queue s (λ sp _. sp) sp q).0 b
              ≡ (not (owns b q.nodes) && s.live sp b))
  unfolding free_shm_queue
  free_shm_queue-live sp q = (refl, refl, free_nodes-live sp q.nodes)
