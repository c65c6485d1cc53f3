-- ===== src/Shm/Owned.antt =====
-- The blocks of a buffer's pool through the calls of src/shm.cpp.
use aiotc.Prelude.{
  ℕ, ◌≡◌, refl, ◌∙◌, Bool, false, not, ◌&&◌, ◌||◌, Option, List, [], ◌∷◌, ◌++◌, arith, ◌==◌, inl,
  inr, Option-cases,
}
use aiotc.Cstring.{Text}
use aiotc.Slab.{Ptr, Slab, free-malloc}
use aiotc.Queue.{Cell, free_arg, free_nodes, free_shm_queue, node_size}
use aiotc.Shm.Copies.{copy_to_shm-Copies, no_block, queue_full, no_node, queued}
use aiotc.Queue.Blocks.{is_arg, free_arg-live}
use aiotc.Shm.{
  ShmFrame, ShmParam, free_shm_ptr, copy_to_shm, clear_shm_queue, set_shm_user, release_shm,
}

-- The block of a node, the frame that it describes, and the block behind its `arg`.
abbrev pub holds : Ptr → Cell ShmFrame → Bool
holds b p = b == p.addr || (is_arg b p.name.ptr || is_arg b p.arg)

unfoldable pub held : Ptr → List (Cell ShmFrame) → Bool
held b [] = false
held b (p ∷ ps) = holds b p || held b ps

pub held-append :
    (b : Ptr) (xs ys : List (Cell ShmFrame)) → held b (xs ++ ys) ≡ (held b xs || held b ys)
unfolding held
held-append b [] ys = refl
held-append b (x ∷ xs) ys = ground (arith, held-append b xs ys)

module _ (s : Slab) where
  pub free_shm_ptr-live :
      (sp : s.Pool) (p : Cell ShmFrame) (b : Ptr)
      → s.live (free_shm_ptr s sp p) b ≡ (not (is_arg b p.name.ptr) && s.live sp b)
  free_shm_ptr-live sp p b = elim (Option-cases p.name.ptr) [
    | inl e ↦ rw e refl
    | inr (a, e) ↦ rw e (s.free_live sp a b)
  ]

  free_nodes-live :
      (sp : s.Pool) (ps : List (Cell ShmFrame)) (b : Ptr)
      → s.live (free_nodes s (free_shm_ptr s) sp ps) b ≡ (not (held b ps) && s.live sp b)
  unfolding free_nodes held
  free_nodes-live sp [] b = refl
  free_nodes-live sp (p ∷ ps) b =
      let sp1 = free_shm_ptr s sp p in
      let sp2 = free_arg s sp1 p.arg in
      free_nodes-live (s.free sp2 p.addr) ps b
      ∙ rw (s.free_live sp2 p.addr b, free_arg-live s sp1 p.arg b, free_shm_ptr-live sp p b)
          (ground arith)

  -- The blocks handed out are those of the queue's frames and of their nodes.
  abbrev pub IsTight : ShmParam s.Pool → Type 0
  IsTight shm = (b : Ptr) → s.live shm.sp b ≡ held b shm.queue.nodes

  module _ (shm : ShmParam s.Pool) (buf : Text) (size frame_id kind max : ℕ)
      (copy : Option (Text → Text)) where
    pub copy_to_shm-IsTight :
        IsTight shm → IsTight (copy_to_shm s shm buf size frame_id kind max copy).1
    unfolding held
    copy_to_shm-IsTight h b = elim (copy_to_shm-Copies s shm buf size frame_id kind max copy) [
      | no_block e r ↦ rw r (s.malloc_full shm.sp size b e ∙ h b)
      | queue_full a e r ↦ rw r (free-malloc s shm.sp size a b e ∙ h b)
      | no_node a e m r ↦ rw r (
          ground (
            arith,
            s.free_live (s.malloc pool1 node_size).1 a b,
            s.malloc_full pool1 node_size b m,
            s.free_live pool1 a b,
            free-malloc s shm.sp size a b e,
            h b,
          ))
      | queued a x _ e m r ↦
          rw (r, held-append)
            (ground
              (arith, s.malloc_live pool1 node_size x b m, s.malloc_live shm.sp size a b e, h b))
    ]
      where
        pool1 : s.Pool
        pool1 = (s.malloc shm.sp size).1

  clear_shm_queue-IsTight : (shm : ShmParam s.Pool) → IsTight shm → IsTight (clear_shm_queue s shm)
  unfolding clear_shm_queue free_shm_queue held
  clear_shm_queue-IsTight shm h b = ground (arith, free_nodes-live shm.sp shm.queue.nodes b, h b)

  pub set_shm_user-IsTight :
      (shm : ShmParam s.Pool) (val : Bool) → IsTight shm → IsTight (set_shm_user s shm val)
  unfolding set_shm_user
  set_shm_user-IsTight shm val h = clear_shm_queue-IsTight _ h

  pub release_shm-IsTight : (shm : ShmParam s.Pool) → IsTight shm → IsTight (release_shm s shm)
  unfolding release_shm
  release_shm-IsTight shm h = clear_shm_queue-IsTight shm h

  -- The calls that write frames, change the number of users, and end a buffer's use.
  pub data Call : Type 0 where
    copies : Text → (size frame_id kind max : ℕ) → Option (Text → Text) → Call
    users : Bool → Call
    releases : Call

  pub step : Call → ShmParam s.Pool → ShmParam s.Pool
  step (copies buf size frame_id kind max copy) shm =
      (copy_to_shm s shm buf size frame_id kind max copy).1
  step (users val) shm = set_shm_user s shm val
  step releases shm = release_shm s shm

  unfoldable pub run : List Call → ShmParam s.Pool → ShmParam s.Pool
  unfolding step
  run [] shm = shm
  run (c ∷ cs) shm = run cs (step c shm)

  step-IsTight : (c : Call) (shm : ShmParam s.Pool) → IsTight shm → IsTight (step c shm)
  unfolding step
  step-IsTight (copies buf size frame_id kind max copy) shm h =
      copy_to_shm-IsTight shm buf size frame_id kind max copy h
  step-IsTight (users val) shm h = set_shm_user-IsTight shm val h
  step-IsTight releases shm h = release_shm-IsTight shm h

  -- Where the blocks handed out are those of the queued frames and their nodes, they are so after
  -- every sequence of copyToShm, setShmUser and releaseShm, whatever the allocator grants: no
  -- outcome of copyToShm loses a block, and none leaves a queued frame without its block.
  pub run-IsTight : (cs : List Call) (shm : ShmParam s.Pool) → IsTight shm → IsTight (run cs shm)
  unfolding run
  run-IsTight [] shm h = h
  run-IsTight (c ∷ cs) shm h = run-IsTight cs (step c shm) (step-IsTight c shm h)
