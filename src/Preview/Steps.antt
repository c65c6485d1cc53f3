-- ===== src/Preview/Steps.antt =====
-- The states of a preview from its start to the end of its thread
-- (src/preview/preview.cpp, src/preview/hls.cpp, src/preview/httpflv.cpp).
use aiotc.Prelude.{
  ℕ, ◌≡◌, refl, ◌∙◌, ap, Bool, true, false, Option, none, some, List, ◌∷◌, ◌++◌, pos, ◌==◌, ==_iff,
}
use aiotc.Cstring.{Text, codes}
use aiotc.Slab.{Ptr, Slab, free-malloc}
use aiotc.Shm.{ShmParam, set_shm_user, clear_shm_queue}
use aiotc.Shm.Free.{taken}
use aiotc.Preview.{
  Ops, put, PreviewParams, Streams, find_ops, preview_ops, uses_ffmpeg, preview_params_size,
  set_buffer, preview_start, preview_stop, thread_begin, thread_end, leave_buffer, init_preview_ops,
  args_block, set_preview_ops, call_start, creates, after_alloc, use_buffer, write_args,
}
use aiotc.Preview.Reads.{Use, run, run-Same}
use aiotc.Preview.Life.{IsNext, set_buffer_at, put_same, alloc_video_shm_fresh, took}

module _ (s : Slab) where
  -- What follows on the start of a thread: the camera's task writes frames and the thread reads some,
  -- the preview is stopped, and the thread ends. None where the thread does not come to its loop.
  abbrev pub finish : ℕ → List Use → Option ℕ × Streams s.Pool → Option (Streams s.Pool)
  finish id frames (none, st) = none
  finish id frames (some b, st) = some (
      thread_end s id b
        (preview_stop s id (record st { shm_array = set_buffer s b (run s frames) st.shm_array })))

  -- A preview of an object from preview_start to the end of its thread.
  abbrev pub life :
      ℕ → Text → (opened check : Bool) → List Use → Streams s.Pool → Option (Streams s.Pool)
  life id preview opened check frames st =
      finish id frames (thread_begin s id opened check (preview_start s id preview true st).2)

  module _ (id : ℕ) (o : Ops) (opened check : Bool) (frames : List Use) (st : Streams s.Pool)
      (before : List (ShmParam s.Pool)) (p : ShmParam s.Pool) (after : List (ShmParam s.Pool))
      (a : Ptr) where
    abbrev args : Bool → Bool → Option (Ptr × PreviewParams)
    args running checked = some (a, record { start = some o; running = running; checked = checked })

    -- The states of the preview: started, begun, and stopped.
    abbrev st1 : Streams s.Pool
    st1 = record st {
      headsp = (s.malloc st.headsp preview_params_size).1;
      preview_args = put st.preview_args id (args false false);
      prew_init = true;
    }

    abbrev p1 : ShmParam s.Pool
    p1 = set_shm_user s (taken s (codes "video") p) true

    abbrev st2 : Streams s.Pool
    st2 = record st1 {
      shm_array = before ++ p1 ∷ after;
      video_shm = put st.video_shm id (some p.id);
      preview_args = put st1.preview_args id (args opened check);
    }

    abbrev st3 : Streams s.Pool
    st3 = record st2 {
      shm_array = before ++ run s frames p1 ∷ after;
      preview_args = put st2.preview_args id (args false check);
    }

    abbrev pub st4 : Streams s.Pool
    st4 = record st3 {
      headsp = s.free st1.headsp a;
      shm_array = before ++ leave_buffer s (run s frames p1) ∷ after;
      preview_args = put st3.preview_args id none;
    }

    mine : (n : ℕ) → (n == n) ≡ true
    mine n = (==_iff n n).1 refl

    module _ (preview : Text) (known : find_ops preview preview_ops ≡ some o)
        (streams : uses_ffmpeg o ≡ true) (idle : st.preview_args id ≡ none)
        (granted : (s.malloc st.headsp preview_params_size).0 ≡ some a) where
      args_at :
          args_block s (st.preview_args id) st.headsp
          ≡ (some a, (s.malloc st.headsp preview_params_size).1)
      unfolding args_block
      args_at = rw idle (ap (λ b. (b, (s.malloc st.headsp preview_params_size).1)) granted)

      inited : init_preview_ops s id preview st ≡ (pos 0, st1)
      unfolding init_preview_ops
      inited =
          ap (set_preview_ops s id (find_ops preview preview_ops) st) args_at
          ∙ rw known (rw streams refl)

      started : preview_start s id preview true st ≡ (pos 0, true, st1)
      unfolding preview_start
      started = ap (call_start s (creates s _ true)) inited ∙ rw known (rw streams refl)

    module _ (next : IsNext s before p after) where
      begun :
          st.shm_array ≡ before ++ p ∷ after
          → st.video_shm id ≡ none
          → thread_begin s id opened check st1 ≡ (some p.id, st2)
      unfolding thread_begin
      begun array fresh =
          let named = took s id st1 before p after in
          ap (after_alloc s id opened check)
            (alloc_video_shm_fresh s id st1 before p after next array fresh)
          ∙ ap (use_buffer s id opened check named) (put_same st.video_shm id (some p.id))
          ∙ ap
              (λ x. (
                some p.id,
                write_args s id (λ args. record args { running = opened; checked = check })
                    (record named {
                      shm_array = set_buffer s p.id (λ q. set_shm_user s q true) named.shm_array;
                    })
                    x,
              ))
              (put_same st.preview_args id (args false false))
          ∙ ap (λ array. (some p.id, record st2 { shm_array = array }))
              (set_buffer_at s p.id (λ q. set_shm_user s q true) before after
                (taken s (codes "video") p) next.alone_before next.alone_after (mine p.id))

      written_id : ((run s frames p1).id == p.id) ≡ true
      unfolding set_shm_user clear_shm_queue
      written_id = (==_iff _ p.id).1 (run-Same s frames p1).0

      p1_id : (p1.id == p.id) ≡ true
      unfolding set_shm_user clear_shm_queue
      p1_id = mine p.id

      stopped :
          uses_ffmpeg o ≡ true
          → preview_stop s id
              (record st2 { shm_array = set_buffer s p.id (run s frames) st2.shm_array })
            ≡ st3
      unfolding preview_stop
      stopped streams =
          ap (λ array. preview_stop s id (record st2 { shm_array = array }))
            (set_buffer_at s p.id (run s frames) before after p1 next.alone_before next.alone_after
              p1_id)
          ∙ rw (mine id, preview_stop) (rw streams refl)

      ended : thread_end s id p.id st3 ≡ st4
      unfolding thread_end
      ended =
          rw (mine id, thread_end)
            (rw
              (set_buffer_at s p.id (leave_buffer s) before after (run s frames p1)
                next.alone_before next.alone_after written_id)
              refl)

    -- The blocks of the head of the shared memory are those of before.
    pub heads :
        (s.malloc st.headsp preview_params_size).0 ≡ some a
        → (b : Ptr) → s.live st4.headsp b ≡ s.live st.headsp b
    heads granted b = free-malloc s st.headsp preview_params_size a b granted

    module _ (preview : Text) (known : find_ops preview preview_ops ≡ some o)
        (streams : uses_ffmpeg o ≡ true) (idle : st.preview_args id ≡ none)
        (fresh : st.video_shm id ≡ none) (array : st.shm_array ≡ before ++ p ∷ after)
        (next : IsNext s before p after)
        (granted : (s.malloc st.headsp preview_params_size).0 ≡ some a) where
      pub lived : life id preview opened check frames st ≡ some st4
      lived =
          ap (λ out. finish id frames (thread_begin s id opened check out.2))
            (started preview known streams idle granted)
          ∙ ap (finish id frames) (begun next array fresh)
          ∙ ap (λ x. some (thread_end s id p.id x)) (stopped next streams)
          ∙ ap some (ended next)
