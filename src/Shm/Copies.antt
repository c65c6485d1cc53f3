-- ===== src/Shm/Copies.antt =====
-- The outcomes of copyToShm (src/shm.cpp).
use aiotc.Prelude.{ℕ, ◌<◌, ◌≡◌, inl, inr, Option, none, some, ℤ, pos, minus_one, Option-cases}
use aiotc.Cstring.{Text}
use aiotc.Slab.{Ptr, Slab}
use aiotc.Queue.{append_node, node_size}
use aiotc.Queue.Puts.{put-Puts, full, no_memory, stored}
use aiotc.Shm.{ShmParam, write, frame_node, copied, copy_to_shm}

module _ (s : Slab) (shm : ShmParam s.Pool) (buf : Text) (size frame_id kind max : ℕ)
    (copy : Option (Text → Text)) where
  pub data Copies (r : ℤ × ShmParam s.Pool) : Type 0 where
    no_block :
        (s.malloc shm.sp size).0 ≡ none
        → r ≡ (minus_one, record shm { sp = (s.malloc shm.sp size).1 })
        → Copies r
    queue_full :
        (a : Ptr)
        → (s.malloc shm.sp size).0 ≡ some a
        → r ≡ (
          minus_one,
          record shm {
            memory = write shm.memory a (copied buf size copy);
            sp = s.free (s.malloc shm.sp size).1 a;
          },
        )
        → Copies r
    no_node :
        (a : Ptr)
        → (s.malloc shm.sp size).0 ≡ some a
        → (s.malloc (s.malloc shm.sp size).1 node_size).0 ≡ none
        → r ≡ (
          minus_one,
          record shm {
            memory = write shm.memory a (copied buf size copy);
            sp = s.free (s.malloc (s.malloc shm.sp size).1 node_size).1 a;
          },
        )
        → Copies r
    queued :
        (a x : Ptr)
        → shm.queue.que_len < max
        → (s.malloc shm.sp size).0 ≡ some a
        → (s.malloc (s.malloc shm.sp size).1 node_size).0 ≡ some x
        → r ≡ (
          pos 0,
          record shm {
            memory = write shm.memory a (copied buf size copy);
            sp = (s.malloc (s.malloc shm.sp size).1 node_size).1;
            queue =
                append_node shm.queue (record { addr = x; node = frame_node kind a size frame_id });
          },
        )
        → Copies r

  pub copy_to_shm-Copies : Copies (copy_to_shm s shm buf size frame_id kind max copy)
  unfolding copy_to_shm
  copy_to_shm-Copies = elim (Option-cases (s.malloc shm.sp size).0) [
    | inl e ↦ no_block e (rw (e, copy_to_shm))
    | inr (a, e) ↦
        elim (put-Puts s (s.malloc shm.sp size).1 shm.queue (frame_node kind a size frame_id) max) [
          | full _ r ↦ queue_full a e (rw (e, copy_to_shm, r))
          | no_memory m r ↦ no_node a e m (rw (e, copy_to_shm, r))
          | stored x lt m r ↦ queued a x lt e m (rw (e, copy_to_shm, r))
        ]
  ]
