-- ===== src/Preview/Shared.antt =====
-- What a preview leaves behind, and the buffer that its camera keeps (src/preview/preview.cpp,
-- src/preview/hls.cpp, src/preview/httpflv.cpp, src/misc.cpp).
use aiotc.Prelude.{
  ℕ, ◌≡◌, ◌≢◌, refl, sym, ◌∙◌, ap, Bool, true, Option, none, some, List, ◌∷◌, ◌++◌, ℤ, pos, arith,
  ==_iff,
}
use aiotc.Cstring.{Text}
use aiotc.Slab.{Ptr, Slab}
use aiotc.Shm.{ShmParam}
use aiotc.Shm.Owned.{held}
use aiotc.Preview.{
  Ops, PreviewParams, Streams, find_ops, preview_ops, uses_ffmpeg, preview_params_size,
  preview_start, thread_begin, put, use_buffer, write_args, alloc_video_shm, after_alloc,
  set_preview_ops, init_preview_ops, call_start, args_block,
}
use aiotc.Preview.Reads.{Use}
use aiotc.Preview.Life.{
  IsNext, IsLeft, left-IsLeft, put_same, put_apart, alloc_video_shm_fresh, took,
}
use aiotc.Preview.Steps.{life, st4, lived, heads}

module _ (s : Slab) where
  -- What the preview of an object leaves of the state `st`: the buffer as none uses it, the blocks of
  -- the head, no previewArgs, and the camera with the buffer.
  pub record IsOver (id : ℕ) (st : Streams s.Pool) (before : List (ShmParam s.Pool))
      (p : ShmParam s.Pool) (after : List (ShmParam s.Pool)) (out : Streams s.Pool) : Type 0 where
    pub q : ShmParam s.Pool
    pub array : out.shm_array ≡ before ++ q ∷ after
    pub buffer : IsLeft s p q
    pub heads : (b : Ptr) → s.live out.headsp b ≡ s.live st.headsp b
    pub args : out.preview_args id ≡ none
    pub named : out.video_shm ≡ put st.video_shm id (some p.id)

  set_preview_ops_keeps :
      (id : ℕ) (ops : Option Ops) (st : Streams s.Pool) (got : Option Ptr × s.Pool)
      → ((set_preview_ops s id ops st got).1.shm_array ≡ st.shm_array)
        × ((set_preview_ops s id ops st got).1.video_shm ≡ st.video_shm)
  set_preview_ops_keeps id ops st (none, h) = (refl, refl)
  set_preview_ops_keeps id none st (some a, h) = (refl, refl)
  set_preview_ops_keeps id (some o) st (some a, h) = (refl, refl)

  call_start_same : (thread : Bool) (out : ℤ × Streams s.Pool) → (call_start s thread out).2 ≡ out.1
  call_start_same thread out = ground arith

  -- The start of a preview does not touch the buffers.
  preview_start_keeps :
      (id : ℕ) (preview : Text) (created : Bool) (st : Streams s.Pool)
      → ((preview_start s id preview created st).2.shm_array ≡ st.shm_array)
        × ((preview_start s id preview created st).2.video_shm ≡ st.video_shm)
  unfolding preview_start init_preview_ops
  preview_start_keeps id preview created st =
      let got = args_block s (st.preview_args id) st.headsp in
      let (a, v) = set_preview_ops_keeps id (find_ops preview preview_ops) st got in
      rw (call_start_same _ _) (a, v)

  write_args_keeps :
      (id : ℕ) (f : PreviewParams → PreviewParams) (st : Streams s.Pool)
      (a : Option (Ptr × PreviewParams))
      → (write_args s id f st a).video_shm ≡ st.video_shm
  write_args_keeps id f st none = refl
  write_args_keeps id f st (some a) = refl

  use_buffer_keeps :
      (id : ℕ) (opened check : Bool) (st : Streams s.Pool) (b : Option ℕ)
      → ((use_buffer s id opened check st b).0 ≡ b)
        × ((use_buffer s id opened check st b).1.video_shm ≡ st.video_shm)
  use_buffer_keeps id opened check st none = (refl, refl)
  use_buffer_keeps id opened check st (some b) =
      (refl, write_args_keeps id _ (record st { shm_array = _ }) (st.preview_args id))

  -- A thread of a camera without a buffer takes the first free one.
  thread_begin_fresh :
      (id : ℕ) (opened check : Bool) (st : Streams s.Pool) (before : List (ShmParam s.Pool))
      (p : ShmParam s.Pool) (after : List (ShmParam s.Pool))
      → IsNext s before p after
      → st.shm_array ≡ before ++ p ∷ after
      → st.video_shm id ≡ none
      → ((thread_begin s id opened check st).0 ≡ some p.id)
        × ((thread_begin s id opened check st).1.video_shm ≡ put st.video_shm id (some p.id))
  unfolding thread_begin
  thread_begin_fresh id opened check st before p after next array fresh =
      let st' = took s id st before p after in
      let (taking, same) = use_buffer_keeps id opened check st' (st'.video_shm id) in
      rw
        (ap (after_alloc s id opened check)
          (alloc_video_shm_fresh s id st before p after next array fresh))
        (taking ∙ rw ((==_iff id id).1 refl) refl, same)

  -- A thread of a camera with a buffer uses that one.
  thread_begin_named :
      (id b : ℕ) (opened check : Bool) (st : Streams s.Pool)
      → st.video_shm id ≡ some b
      → (thread_begin s id opened check st).0 ≡ some b
  unfolding thread_begin alloc_video_shm
  thread_begin_named id b opened check st e =
      let allocated : alloc_video_shm s id st ≡ (pos 0, st) = rw (e, alloc_video_shm) refl in
      rw (ap (after_alloc s id opened check) allocated)
        ((use_buffer_keeps id opened check st (st.video_shm id)).0 ∙ e)

  module _ (id : ℕ) (preview : Text) (o : Ops) (opened check : Bool) (frames : List Use)
      (st : Streams s.Pool) (before : List (ShmParam s.Pool)) (p : ShmParam s.Pool)
      (after : List (ShmParam s.Pool)) (a : Ptr) (known : find_ops preview preview_ops ≡ some o)
      (streams : uses_ffmpeg o ≡ true) (idle : st.preview_args id ≡ none)
      (fresh : st.video_shm id ≡ none) (array : st.shm_array ≡ before ++ p ∷ after)
      (next : IsNext s before p after)
      (granted : (s.malloc st.headsp preview_params_size).0 ≡ some a) where
    -- For a preview of a type with a thread, on an object without previewArgs whose camera has no
    -- buffer, where the allocator grants the block and `p` is the first free buffer: preview_start,
    -- the thread with any frames that the camera's task writes and the preview reads, in any order,
    -- preview_stop and the end of the thread leave the other buffers as they were, the buffer `p`
    -- without users, frames or blocks, those of the frames read included, and free again, the blocks
    -- of the head of the shared memory as before, and no previewArgs. But the camera still names the
    -- buffer.
    pub life-IsOver :
        (out : Streams s.Pool) × (life s id preview opened check frames st ≡ some out)
        × IsOver id st before p after out
    life-IsOver = (
      st4 s id o opened check frames st before p after a,
      lived s id o opened check frames st before p after a preview known streams idle fresh array
          next granted,
      record {
        q = _;
        array = refl;
        buffer = left-IsLeft s frames p next.unused next.tight;
        heads = heads s id o opened check frames st before p after a granted;
        args = rw ((==_iff id id).1 refl) refl;
        named = refl;
      },
    )

    module _ (other : ℕ) (apart : other ≢ id) (free : st.video_shm other ≡ none)
        (preview' preview'' : Text) (opened' check' opened'' check'' : Bool) where
      -- The preview of another object after that, and then one of the first object again.
      abbrev second_begin : Streams s.Pool → Option ℕ × Streams s.Pool
      second_begin out =
          thread_begin s other opened' check' (preview_start s other preview' true out).2

      abbrev again : Streams s.Pool → Option ℕ × Streams s.Pool
      again out =
          thread_begin s id opened'' check''
            (preview_start s id preview'' true (second_begin out).1).2

      -- After such a preview of an object (of a type with a thread, without previewArgs before, whose
      -- camera had no buffer, with the block granted and `p` the first free buffer), the preview of another object whose camera has no buffer
      -- takes the buffer that the first camera still names, and a preview of the first object,
      -- started while the other runs, uses the same buffer: two cameras write into one.
      pub life_shared :
          (out : Streams s.Pool) × (life s id preview opened check frames st ≡ some out)
          × ((second_begin out).0 ≡ some p.id)
          × ((again out).0 ≡ some p.id)
      unfolding held
      life_shared =
          let (out, e, over) = life-IsOver in
          let left = over.buffer in
          let next' : IsNext s before over.q after = record {
            skipped = next.skipped;
            alone_before = rw (left.same_id) (next.alone_before);
            alone_after = rw (left.same_id) (next.alone_after);
            free = ground (arith, left.same_kind, left.not_used, next.free);
            unused = left.no_users;
            tight = rw (left.no_frames) (left.no_blocks);
          } in
          let (a1, v1) = preview_start_keeps other preview' true out in
          let (taking, v2) =
            thread_begin_fresh other opened' check' (preview_start s other preview' true out).2
              before over.q after next' (a1 ∙ over.array)
              (ap (λ f. f other) (v1 ∙ over.named)
                ∙ put_apart st.video_shm id (some p.id) other apart
                ∙ free) in
          let begun = (second_begin out).1 in
          let (_, v3) = preview_start_keeps id preview'' true begun in
          let named : (preview_start s id preview'' true begun).2.video_shm id ≡ some p.id =
            ap (λ f. f id) (v3 ∙ v2)
            ∙ put_apart (preview_start s other preview' true out).2.video_shm other (some over.q.id)
                id (λ e. apart (sym e))
            ∙ ap (λ f. f id) (v1 ∙ over.named)
            ∙ put_same st.video_shm id (some p.id) in
          (
            out,
            e,
            taking ∙ ap some left.same_id,
            thread_begin_named id p.id opened'' check'' (preview_start s id preview'' true begun).2
                named,
          )
