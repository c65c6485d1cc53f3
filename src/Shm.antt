-- ===== src/Shm.antt =====
-- The frame buffers of src/shm.cpp: a slab pool and a queue of frames for each camera stream.
pub mod Layout
pub mod Copies
pub mod Frames
pub mod Owned
pub mod Free
use aiotc.Prelude.{
  ℕ, ◌+◌, ◌-◌, Bool, true, false, not, ◌&&◌, Option, none, some, List, [], ◌∷◌, ℤ, pos, minus_one,
  eq_ℤ, take, ltb, ◌==◌, if◌then◌else◌,
}
use aiotc.Cstring.{Text, strncmp_eq}
use aiotc.Slab.{Ptr, Slab}
use aiotc.Queue.{
  Node, Cell, Queue, Put, put_to_shm_queue, free_shm_queue, get_from_queue, del_from_queue_by_user,
}

-- shmFrame; `used` is never read, and the back pointer to the buffer is the record it stands in.
pub record ShmFrame : Type 0 where
  pub kind : ℕ
  pub ptr : Option Ptr
  pub size : ℕ
  pub frame_id : ℕ

-- shmParam. `memory` is what the blocks of the pool hold.
pub record ShmParam (P : Type 0) : Type 0 where
  pub id : ℕ
  pub kind : Text
  pub sp : P
  pub memory : Ptr → Text
  pub queue : Queue ShmFrame
  pub usedd : Bool

abbrev pub write : (Ptr → Text) → Ptr → Text → Ptr → Text
write memory p buf a = if a == p then buf else memory a

-- The node that copyToShm builds on its stack.
abbrev pub frame_node : ℕ → Ptr → ℕ → ℕ → Node ShmFrame
frame_node kind p size frame_id = record {
  name = record { kind = kind; ptr = some p; size = size; frame_id = frame_id };
  val = 0;
  arg = none;
}

-- conditionByFrameId
abbrev pub condition_by_frame_id : ℕ → Cell ShmFrame → Bool
condition_by_frame_id frame_id p = ltb frame_id p.name.frame_id

-- What the block of a new frame holds.
abbrev pub copied : Text → ℕ → Option (Text → Text) → Text
copied buf size none = take size buf
copied buf size (some copy) = copy buf

abbrev pub buffer_type_size : ℕ
buffer_type_size = 32

module _ (s : Slab) where
  -- freeShmPtr
  abbrev pub free_shm_ptr : s.Pool → Cell ShmFrame → s.Pool
  free_shm_ptr sp p = elim p.name.ptr [ none ↦ sp | some a ↦ s.free sp a ]

  -- `shmFree(sp, pShmFrame->ptr); return -1` where the put failed
  after_put : ShmParam s.Pool → Ptr → Put s.Pool ShmFrame → ℤ × ShmParam s.Pool
  after_put shm ptr r =
      if eq_ℤ r.ret (pos 0)
      then (pos 0, record shm { sp = r.pool; queue = r.queue })
      else (minus_one, record shm { sp = s.free r.pool ptr; queue = r.queue })

  -- copyToShm. `copy` is the callback, which writes the block from `buf`, or NULL for memcpy.
  unfoldable pub copy_to_shm :
      ShmParam s.Pool → Text → ℕ → ℕ → ℕ → ℕ → Option (Text → Text) → ℤ × ShmParam s.Pool
  unfolding after_put
  copy_to_shm shm buf size frame_id kind max copy =
      let got = s.malloc shm.sp size in
      elim got.0 [
        | none ↦ (minus_one, record shm { sp = got.1 })
        | some ptr ↦
            after_put (record shm { memory = write shm.memory ptr (copied buf size copy) }) ptr
              (put_to_shm_queue s got.1 shm.queue (frame_node kind ptr size frame_id) max)
      ]

  -- copyFromShm: the frame is the caller's from now on, and its node is given back.
  unfoldable pub copy_from_shm : ShmParam s.Pool → Option ShmFrame × ShmParam s.Pool
  copy_from_shm shm =
      let out = get_from_queue shm.queue in
      elim out.taken [
        | none ↦ (none, record shm { queue = out.queue })
        | some p ↦ (some p.name, record shm { sp = s.free shm.sp p.addr; queue = out.queue })
      ]

  -- copyFromShmWithUser: the node and `useMax`, where a frame newer than `frame_id` is there.
  unfoldable pub copy_from_shm_with_user :
      ShmParam s.Pool → ℕ → Option (Cell ShmFrame × ℕ) × ShmParam s.Pool
  copy_from_shm_with_user shm frame_id =
      let out = del_from_queue_by_user (condition_by_frame_id frame_id) shm.queue in
      (elim out.0 [ none ↦ none | some p ↦ some (p, out.1.use_max) ], record shm { queue = out.1 })

  -- clearShmQueue
  unfoldable pub clear_shm_queue : ShmParam s.Pool → ShmParam s.Pool
  clear_shm_queue shm =
      let out = free_shm_queue s free_shm_ptr shm.sp shm.queue in
      record shm { sp = out.0; queue = out.1 }

  -- setShmUser: a count below 0 is set back to 0.
  unfoldable pub set_shm_user : ShmParam s.Pool → Bool → ShmParam s.Pool
  set_shm_user shm val =
      let n = if val then shm.queue.use_max + 1 else shm.queue.use_max - 1 in
      clear_shm_queue (record shm { queue = record (shm.queue) { use_max = n } })

  -- releaseShm
  unfoldable pub release_shm : ShmParam s.Pool → ShmParam s.Pool
  release_shm shm = record (clear_shm_queue shm) { usedd = false }

  -- The loop of getFreeShm: the buffer it takes, and the array.
  unfoldable pub get_free_shm :
      Text → List (ShmParam s.Pool) → Option (ShmParam s.Pool) × List (ShmParam s.Pool)
  get_free_shm kind [] = (none, [])
  get_free_shm kind (p ∷ rest) =
      let p' = record p { usedd = true } in
      let later = get_free_shm kind rest in
      if strncmp_eq buffer_type_size p.kind kind && not p.usedd
      then (some p', p' ∷ rest)
      else (later.0, p ∷ later.1)
