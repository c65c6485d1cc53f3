-- ===== src/Shm/Frames.antt =====
-- copyToShm followed by copyFromShm (src/shm.cpp).
use aiotc.Prelude.{ℕ, ◌≡◌, ◌∙◌, ap, ◌||◌, Option, some, [], ◌∷◌, pos, arith, ◌==◌}
use aiotc.Cstring.{Text}
use aiotc.Slab.{Ptr, Slab, free-malloc}
use aiotc.Queue.{Cell, node_size}
use aiotc.Queue.Length.{get-cons}
use aiotc.Shm.{ShmFrame, ShmParam, frame_node, copied, copy_to_shm, copy_from_shm}
use aiotc.Shm.Copies.{copy_to_shm-Copies, no_block, queue_full, no_node, queued}

-- The reader's side, on a queue of one node.
copy_from-one :
    (s : Slab) (shm : ShmParam s.Pool) (p : Cell ShmFrame)
    → shm.queue.nodes ≡ p ∷ []
    → shm.queue.que_len ≡ 1
    → copy_from_shm s shm ≡ (
      some p.name,
      record shm {
        sp = s.free shm.sp p.addr;
        queue = record (shm.queue) { nodes = []; que_len = 0 };
      },
    )
unfolding copy_from_shm
copy_from-one s shm p e n = ground (arith, get-cons shm.queue p [] e n)

module _ (s : Slab) (shm : ShmParam s.Pool) (buf : Text) (size frame_id kind max : ℕ)
    (copy : Option (Text → Text)) where
  abbrev written : ShmParam s.Pool
  written = (copy_to_shm s shm buf size frame_id kind max copy).1

  -- A frame that copyToShm takes into an empty queue is the one that the next copyFromShm hands
  -- over, with its size, number and type, the block it names holds what was copied and still
  -- belongs to the reader, and the node's block is the only other one that came and went.
  pub copy_from-copy_to :
      shm.queue.nodes ≡ []
      → shm.queue.que_len ≡ 0
      → (copy_to_shm s shm buf size frame_id kind max copy).0 ≡ pos 0
      → (a : Ptr) × ((copy_from_shm s written).0
          ≡ some (record { kind = kind; ptr = some a; size = size; frame_id = frame_id }))
        × ((copy_from_shm s written).1.memory a ≡ copied buf size copy)
        × ((copy_from_shm s written).1.queue.nodes ≡ [])
        × ((b : Ptr) → s.live (copy_from_shm s written).1.sp b ≡ (b == a || s.live shm.sp b))
  copy_from-copy_to none_there zero_len done =
      elim (copy_to_shm-Copies s shm buf size frame_id kind max copy) [
        | no_block e r ↦ cc
        | queue_full a e r ↦ cc
        | no_node a e m r ↦ cc
        | queued a x _ e m r ↦
            let p : Cell ShmFrame = record { addr = x; node = frame_node kind a size frame_id } in
            let w = ap (λ t. t.1) r in
            let one =
              copy_from-one s written p (ap (λ t. t.queue.nodes) w ∙ rw none_there)
                (ap (λ t. t.queue.que_len) w ∙ rw zero_len (omega arith)) in
            (
              a,
              ap (λ t. t.0) one,
              ap (λ t. t.1.memory a) one ∙ ap (λ t. t.memory a) w ∙ ground arith,
              ap (λ t. t.1.queue.nodes) one,
              λ b.
                  ap (λ t. s.live t.1.sp b) one
                  ∙ ap (λ t. s.live (s.free t.sp x) b) w
                  ∙ free-malloc s _ node_size x b m
                  ∙ s.malloc_live shm.sp size a b e,
            )
      ]
