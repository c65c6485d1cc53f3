-- ===== src/Preview/Reads.antt =====
-- The frames of a buffer between the camera's task, which writes them (copyToShm of src/shm.cpp), and
-- the one preview that reads them (read_video_packet of src/preview/ffmpeg.cpp).
use aiotc.Prelude.{
  ℕ, ◌+◌, leb, not, ◌&&◌, ◌≡◌, refl, ◌∙◌, Bool, true, false, Option, none, some, List, [], ◌∷◌,
  ◌++◌, arith, inl, inr, Bool-cases,
}
use aiotc.Cstring.{Text}
use aiotc.Slab.{Ptr, Slab}
use aiotc.Queue.{Cell, use_first, del_from_queue_by_user, node_size}
use aiotc.Shm.{
  ShmFrame, ShmParam, copy_to_shm, copy_from_shm_with_user, free_shm_ptr, condition_by_frame_id,
}
use aiotc.Shm.Copies.{copy_to_shm-Copies, no_block, queue_full, no_node, queued}
use aiotc.Shm.Owned.{IsTight, copy_to_shm-IsTight, free_shm_ptr-live, holds, held, held-append}
use aiotc.Preview.{read_frame, free_read}

-- A frame that the task of the camera writes.
pub record Frame : Type 0 where
  pub buf : Text
  pub size : ℕ
  pub frame_id : ℕ
  pub kind : ℕ
  pub max : ℕ
  pub copy : Option (Text → Text)

-- A write of the task, or a read of the preview, where `used` had read the frame before.
pub data Use : Type 0 where
  writes : Frame → Use
  reads : (used : ℕ) → Use

-- The blocks of different nodes are different, and no node has a block behind its `arg`.
abbrev Apart : List (Cell ShmFrame) → Type 0
Apart [] = Unit
Apart (p ∷ ps) = ((b : Ptr) → holds b p ≡ true → held b ps ≡ false) × (p.arg ≡ none) × Apart ps

Apart-append :
    (ps : List (Cell ShmFrame)) (n : Cell ShmFrame)
    → Apart ps
    → ((b : Ptr) → holds b n ≡ true → held b ps ≡ false)
    → n.arg ≡ none
    → Apart (ps ++ n ∷ [])
unfolding held
Apart-append [] n h f e = ((λ b o. refl), e, tt)
Apart-append (p ∷ ps) n h f e = (
  (λ b o. ground (arith, held-append b ps (n ∷ []), h.0 b o, f b, o)),
  h.1,
  Apart-append ps n h.2 (λ b o. ground (arith, f b o)) e,
)

-- The blocks of a node that was taken.
abbrev taken_holds : Ptr → Option (Cell ShmFrame) → Bool
taken_holds b none = false
taken_holds b (some p) = holds b p

abbrev NoArg : Option (Cell ShmFrame) → Type 0
NoArg none = Unit
NoArg (some p) = p.arg ≡ none

-- A single user takes the node that it reads off the list.
record Takes (ps : List (Cell ShmFrame))
    (out : Option (Cell ShmFrame) × Bool × List (Cell ShmFrame)) : Type 0 where
  left : (b : Ptr) → held b out.2 ≡ (not (taken_holds b out.0) && held b ps)
  inside : (b : Ptr) → taken_holds b out.0 ≡ true → held b ps ≡ true
  apart : Apart out.2
  free_arg : NoArg out.0

use_first-Takes :
    (c : Cell ShmFrame → Bool) (ps : List (Cell ShmFrame)) → Apart ps → Takes ps (use_first 1 c ps)
unfolding use_first held
use_first-Takes c [] h = record { left = λ b. refl; inside = λ b e. cc; apart = tt; free_arg = tt }
use_first-Takes c (p ∷ ps) h =
    let t = use_first-Takes c ps h.2 in
    elim (Bool-cases (c p)) [
      | inl yes_p ↦
          (let one : leb 1 (p.val + 1) ≡ true = ground arith in
            rw (yes_p, one)
              (record {
                left = λ b. ground (arith, h.0 b);
                inside = λ b e. ground (arith, e);
                apart = h.2;
                free_arg = h.1;
              }))
      | inr no_p ↦ rw no_p (record {
        left = λ b. ground (arith, h.0 b, t.left b, t.inside b);
        inside = λ b e. ground (arith, t.inside b e);
        apart = ((λ b o. ground (arith, h.0 b o, t.left b)), h.1, t.apart);
        free_arg = t.free_arg;
      })
    ]

module _ (s : Slab) where
  unfoldable pub step : Use → ShmParam s.Pool → ShmParam s.Pool
  step (writes f) shm = (copy_to_shm s shm f.buf f.size f.frame_id f.kind f.max f.copy).1
  step (reads used) shm = read_frame s used shm

  unfoldable pub run : List Use → ShmParam s.Pool → ShmParam s.Pool
  unfolding step
  run [] shm = shm
  run (u ∷ us) shm = run us (step u shm)

  -- What the calls on a buffer keep: who it is, whether it is used, how many use it.
  abbrev Same : ShmParam s.Pool → ShmParam s.Pool → Type 0
  Same p q =
      (q.id ≡ p.id) × (q.kind ≡ p.kind) × (q.usedd ≡ p.usedd) × (q.queue.use_max ≡ p.queue.use_max)

  free_read-Same :
      (used : ℕ) (shm : ShmParam s.Pool) (o : Option (Cell ShmFrame × ℕ))
      → Same shm (free_read s used (o, shm))
  free_read-Same used shm none = (refl, refl, refl, refl)
  free_read-Same used shm (some (p, n)) = elim (Bool-cases (leb n (used + 1))) [
    | inl e ↦ rw e (refl, refl, refl, refl)
    | inr e ↦ rw e (refl, refl, refl, refl)
  ]

  step-Same : (u : Use) (shm : ShmParam s.Pool) → Same shm (step u shm)
  unfolding step read_frame copy_from_shm_with_user del_from_queue_by_user
  step-Same (writes f) shm =
      elim (copy_to_shm-Copies s shm f.buf f.size f.frame_id f.kind f.max f.copy) [
        | no_block _ r ↦ rw (r, step) (refl, refl, refl, refl)
        | queue_full _ _ r ↦ rw (r, step) (refl, refl, refl, refl)
        | no_node _ _ _ r ↦ rw (r, step) (refl, refl, refl, refl)
        | queued _ _ _ _ _ r ↦ rw (r, step) (refl, refl, refl, refl)
      ]
  step-Same (reads used) shm =
      free_read-Same used (copy_from_shm_with_user s shm 0).1 (copy_from_shm_with_user s shm 0).0

  pub run-Same : (us : List Use) (p : ShmParam s.Pool) → Same p (run us p)
  unfolding run
  run-Same [] p = (refl, refl, refl, refl)
  run-Same (u ∷ us) p =
      let a = step-Same u p in
      let b = run-Same us (step u p) in (b.0 ∙ a.0, b.1 ∙ a.1, b.2 ∙ a.2, b.3 ∙ a.3)

  write-Apart :
      (f : Frame) (shm : ShmParam s.Pool)
      → IsTight s shm
      → Apart shm.queue.nodes
      → Apart (step (writes f) shm).queue.nodes
  unfolding step
  write-Apart f shm t h =
      elim (copy_to_shm-Copies s shm f.buf f.size f.frame_id f.kind f.max f.copy) [
        | no_block _ r ↦ rw (r, step) h
        | queue_full _ _ r ↦ rw (r, step) h
        | no_node _ _ _ r ↦ rw (r, step) h
        | queued a x _ e m r ↦
            rw (r, step)
              (Apart-append shm.queue.nodes _ h
                (λ b o. ground (
                  arith,
                  o,
                  t b,
                  s.malloc_fresh shm.sp f.size a e,
                  s.malloc_fresh (s.malloc shm.sp f.size).1 node_size x m,
                  s.malloc_live shm.sp f.size a b e,
                ))
                refl)
      ]

  -- What one read leaves, of the walk over the queue.
  after_read :
      (used : ℕ) (shm : ShmParam s.Pool)
      (out : Option (Cell ShmFrame) × Bool × List (Cell ShmFrame)) (n : ℕ)
      → ShmParam s.Pool
  after_read used shm out n = free_read s used (
    elim out.0 [ none ↦ none | some p ↦ some (p, shm.queue.use_max) ],
    record shm { queue = record (shm.queue) { nodes = out.2; que_len = n } },
  )

  after_read-IsTight :
      (used : ℕ) (shm : ShmParam s.Pool)
      (out : Option (Cell ShmFrame) × Bool × List (Cell ShmFrame)) (n : ℕ)
      → shm.queue.use_max ≡ 1
      → Takes shm.queue.nodes out
      → IsTight s shm
      → IsTight s (after_read used shm out n) × Apart (after_read used shm out n).queue.nodes
  unfolding after_read
  after_read-IsTight used shm (none, taken, rest) n u t h =
      ((λ b. ground (arith, h b, t.left b)), t.apart)
  after_read-IsTight used shm (some p, taken, rest) n u t h =
      let last : leb shm.queue.use_max (used + 1) ≡ true = ground (arith, u) in
      rw last (
        (λ b.
            s.free_live (free_shm_ptr s shm.sp p) p.addr b
            ∙ ground (arith, free_shm_ptr-live s shm.sp p b, h b, t.left b, t.free_arg)),
        t.apart,
      )

  step-IsTight :
      (u : Use) (shm : ShmParam s.Pool)
      → shm.queue.use_max ≡ 1
      → Apart shm.queue.nodes
      → IsTight s shm
      → IsTight s (step u shm) × Apart (step u shm).queue.nodes
  unfolding step read_frame copy_from_shm_with_user del_from_queue_by_user after_read
  step-IsTight (writes f) shm e h t = (
    copy_to_shm-IsTight s shm f.buf f.size f.frame_id f.kind f.max f.copy t,
    write-Apart f shm t h,
  )
  step-IsTight (reads used) shm e h t =
      let takes : Takes shm.queue.nodes
          (use_first shm.queue.use_max (condition_by_frame_id 0) shm.queue.nodes) =
        rw e (use_first-Takes (condition_by_frame_id 0) shm.queue.nodes h) in
      after_read-IsTight used shm
        (use_first shm.queue.use_max (condition_by_frame_id 0) shm.queue.nodes) _ e takes t

  -- A single preview gives back each frame that it reads.
  pub run-IsTight :
      (us : List Use) (shm : ShmParam s.Pool)
      → shm.queue.use_max ≡ 1
      → Apart shm.queue.nodes
      → IsTight s shm
      → IsTight s (run us shm)
  unfolding run
  run-IsTight [] shm e h t = t
  run-IsTight (u ∷ us) shm e h t =
      let (t', h') = step-IsTight u shm e h t in
      run-IsTight us (step u shm) ((step-Same u shm).3 ∙ e) h' t'
