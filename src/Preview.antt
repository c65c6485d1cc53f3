-- ===== src/Preview.antt =====
-- The life of a preview and the buffer of its camera: allocVideoShm of src/misc.cpp, preview_start,
-- initPreviewOps and preview_stop of src/preview/preview.cpp, and the threads of
-- src/preview/hls.cpp and src/preview/httpflv.cpp, with the reads of src/preview/ffmpeg.cpp. What a
-- thread has from ffmpeg is an argument.
pub mod Reads
pub mod Life
pub mod Steps
pub mod Shared
use aiotc.Prelude.{
  ℕ, ◌+◌, leb, Bool, true, false, Option, none, some, List, [], ◌∷◌, map, ℤ, pos, minus_one, eq_ℤ,
  ◌==◌, if◌then◌else◌,
}
use aiotc.Cstring.{Text, codes, strcmp_eq}
use aiotc.Slab.{Ptr, Slab}
use aiotc.Queue.{Cell}
use aiotc.Shm.{
  ShmFrame, ShmParam, free_shm_ptr, copy_from_shm_with_user, set_shm_user, release_shm,
  get_free_shm,
}

-- The entries of previewOps, by their functions.
pub data Ops : Type 0 where
  hls : Ops
  http_flv : Ops
  ws : Ops

abbrev pub preview_ops : List (Text × Ops)
preview_ops = (codes "hls", hls) ∷ (codes "http-flv", http_flv) ∷ (codes "ws", ws) ∷ []

-- The loop of initPreviewOps.
unfoldable pub find_ops : Text → List (Text × Ops) → Option Ops
find_ops preview [] = none
find_ops preview (p ∷ ps) =
    let later = find_ops preview ps in if strcmp_eq preview p.0 then some p.1 else later

-- previewParams: the functions (`start` is NULL where there are none), and what the thread sets.
pub record PreviewParams : Type 0 where
  pub start : Option Ops
  pub running : Bool
  pub checked : Bool

-- What the previews of a slave share: the head of the shared memory, the buffers, and for each
-- object the pointers videoShm (the buffer's id) and previewArgs; `prew_init` is the flag of the
-- process.
pub record Streams (P : Type 0) : Type 0 where
  pub headsp : P
  pub shm_array : List (ShmParam P)
  pub video_shm : ℕ → Option ℕ
  pub preview_args : ℕ → Option (Ptr × PreviewParams)
  pub prew_init : Bool

-- A write to the entry of an object.
abbrev pub put : {A : Type 0} → (ℕ → A) → ℕ → A → ℕ → A
put f id a i = if i == id then a else f i

-- `sizeof(previewParams)`
abbrev pub preview_params_size : ℕ
preview_params_size = 96

abbrev pub uses_ffmpeg : Ops → Bool
uses_ffmpeg hls = true
uses_ffmpeg http_flv = true
uses_ffmpeg ws = false

module _ (s : Slab) where
  -- A write to the buffer of an id.
  unfoldable pub set_buffer :
      ℕ → (ShmParam s.Pool → ShmParam s.Pool) → List (ShmParam s.Pool) → List (ShmParam s.Pool)
  set_buffer b f = map (λ p. if p.id == b then f p else p)

  -- allocVideoShm after getFreeShm, where the camera has no buffer yet
  abbrev pub take_buffer :
      ℕ → Streams s.Pool → Option (ShmParam s.Pool) × List (ShmParam s.Pool) → ℤ × Streams s.Pool
  take_buffer id st (none, array) = (minus_one, record st { shm_array = array })
  take_buffer id st (some p, array) =
      (pos 0, record st { shm_array = array; video_shm = put st.video_shm id (some p.id) })

  -- allocVideoShm
  unfoldable pub alloc_video_shm : ℕ → Streams s.Pool → ℤ × Streams s.Pool
  alloc_video_shm id st =
      let got = get_free_shm s (codes "video") st.shm_array in
      elim (st.video_shm id) [ some b ↦ (pos 0, st) | none ↦ take_buffer id st got ]

  -- The block behind previewArgs, which is kept where there is one.
  unfoldable pub args_block : Option (Ptr × PreviewParams) → s.Pool → Option Ptr × s.Pool
  args_block (some a) headsp = (some a.0, headsp)
  args_block none headsp = s.malloc headsp preview_params_size

  -- initPreviewOps after its malloc: the block is cleared and the functions are set.
  abbrev pub set_preview_ops :
      ℕ → Option Ops → Streams s.Pool → Option Ptr × s.Pool → ℤ × Streams s.Pool
  set_preview_ops id ops st (none, headsp) = (minus_one, record st { headsp = headsp })
  set_preview_ops id ops st (some a, headsp) =
      let args : PreviewParams = record { start = ops; running = false; checked = false } in
      let st' : Streams s.Pool = record st {
        headsp = headsp;
        preview_args = put st.preview_args id (some (a, args));
      } in
      elim ops [
        | none ↦ (minus_one, st')
        | some o ↦ (pos 0, record st' { prew_init = if uses_ffmpeg o then true else st.prew_init })
      ]

  -- initPreviewOps
  unfoldable pub init_preview_ops : ℕ → Text → Streams s.Pool → ℤ × Streams s.Pool
  init_preview_ops id preview st =
      set_preview_ops id (find_ops preview preview_ops) st
        (args_block (st.preview_args id) st.headsp)

  -- Whether the start function creates a thread.
  abbrev pub creates : Option Ops → Bool → Bool
  creates none created = false
  creates (some o) created = if uses_ffmpeg o then created else false

  -- preview_start after initPreviewOps
  abbrev pub call_start : Bool → ℤ × Streams s.Pool → ℤ × Bool × Streams s.Pool
  call_start thread out =
      if eq_ℤ out.0 (pos 0) then (pos 0, thread, out.1) else (minus_one, false, out.1)

  -- preview_start: the result, and whether a thread was created, which `created` says of
  -- pthread_create.
  unfoldable pub preview_start : ℕ → Text → Bool → Streams s.Pool → ℤ × Bool × Streams s.Pool
  preview_start id preview created st =
      call_start (creates (find_ops preview preview_ops) created) (init_preview_ops id preview st)

  -- A write through previewArgs.
  abbrev pub write_args :
      ℕ
      → (PreviewParams → PreviewParams)
      → Streams s.Pool
      → Option (Ptr × PreviewParams)
      → Streams s.Pool
  write_args id f st none = st
  write_args id f st (some a) = record st {
    preview_args = put st.preview_args id (some (a.0, f a.1));
  }

  -- hls_stop, httpflv_stop and wspreview_stop
  abbrev pub call_stop : Bool → PreviewParams → PreviewParams
  call_stop streams args = if streams then record args { running = false } else args

  abbrev pub stop_args : PreviewParams → PreviewParams
  stop_args args = elim args.start [ none ↦ args | some o ↦ call_stop (uses_ffmpeg o) args ]

  -- preview_stop
  unfoldable pub preview_stop : ℕ → Streams s.Pool → Streams s.Pool
  preview_stop id st = write_args id stop_args st (st.preview_args id)

  -- The threads from their first setShmUser, on the buffer `b`.
  abbrev pub use_buffer :
      ℕ → (opened check : Bool) → Streams s.Pool → Option ℕ → Option ℕ × Streams s.Pool
  use_buffer id opened check st none = (none, st)
  use_buffer id opened check st (some b) = (
    some b,
    write_args id (λ args. record args { running = opened; checked = check })
        (record st { shm_array = set_buffer b (λ p. set_shm_user s p true) st.shm_array })
        (st.preview_args id),
  )

  -- The threads after allocVideoShm.
  abbrev pub after_alloc :
      ℕ → (opened check : Bool) → ℤ × Streams s.Pool → Option ℕ × Streams s.Pool
  after_alloc id opened check out =
      if eq_ℤ out.0 (pos 0)
      then use_buffer id opened check out.1 (out.1.video_shm id)
      else (none, out.1)

  -- hls_thread and httpflv_thread up to previewLoop: the buffer that the thread keeps, or none where
  -- the thread is over. `opened` is whether previewInit succeeds, `check` whether it is hls.
  unfoldable pub thread_begin :
      ℕ → (opened check : Bool) → Streams s.Pool → Option ℕ × Streams s.Pool
  thread_begin id opened check st = after_alloc id opened check (alloc_video_shm id st)

  -- read_video_packet after copyFromShmWithUser: the last of the users gives the frame and its node
  -- back. `used` is how many had read the frame before.
  abbrev pub free_read : ℕ → Option (Cell ShmFrame × ℕ) × ShmParam s.Pool → ShmParam s.Pool
  free_read used (none, shm) = shm
  free_read used (some (p, use_max), shm) =
      if leb use_max (used + 1)
      then record shm { sp = s.free (free_shm_ptr s shm.sp p) p.addr }
      else shm

  -- A round of read_video_packet of src/preview/ffmpeg.cpp, which previewInit and previewLoop call, on
  -- the buffer; what it copies for ffmpeg is left out.
  unfoldable pub read_frame : ℕ → ShmParam s.Pool → ShmParam s.Pool
  read_frame used shm = free_read used (copy_from_shm_with_user s shm 0)

  -- `setShmUser(pVideoShm, 0)`, and releaseShm where nobody uses the buffer
  unfoldable pub leave_buffer : ShmParam s.Pool → ShmParam s.Pool
  leave_buffer p =
      let p' = set_shm_user s p false in if p'.queue.use_max == 0 then release_shm s p' else p'

  -- hls_thread and httpflv_thread after previewLoop.
  unfoldable pub thread_end : ℕ → ℕ → Streams s.Pool → Streams s.Pool
  thread_end id b st = record st {
    headsp = elim (st.preview_args id) [ none ↦ st.headsp | some a ↦ s.free st.headsp a.0 ];
    shm_array = set_buffer b leave_buffer st.shm_array;
    preview_args = put st.preview_args id none;
  }
