-- ===== src/Examples/Buffers.antt =====
-- The laws of the frame buffers at concrete buffers and sizes.
use aiotc.Prelude.{
  ℕ, ◌<◌, ◌≡◌, refl, true, false, ◌||◌, none, some, List, [], ◌∷◌, ◌==◌, inl, arith,
}
use aiotc.Cstring.{codes}
use aiotc.Slab.{Ptr}
use aiotc.Queue.{empty, put_to_shm_queue}
use aiotc.Shm.{ShmParam, copied, copy_to_shm, copy_from_shm}
use aiotc.Shm.Owned.{Call, copies, users, releases, IsTight, run, run-IsTight, held}
use aiotc.Shm.Frames.{copy_from-copy_to}
use aiotc.Shm.Layout.{
  Sizes, IsInt, Region, Tiles, init_shm_array, shm_total_size, init_shm_array-fits,
  init_shm_array_overrun,
}
use aiotc.Examples.Setup.{small_pool}

abbrev idle : ShmParam small_pool.Pool
idle = record {
  id = 1;
  kind = codes "video";
  sp = [];
  memory = λ _. [];
  queue = empty;
  usedd = true;
}

abbrev calls : List (Call small_pool)
calls =
    copies (1 ∷ 2 ∷ 3 ∷ []) 3 1 0 2 none
    ∷ copies (4 ∷ []) 1 2 0 2 none
    ∷ copies (5 ∷ []) 1 3 0 2 none
    ∷ users true
    ∷ copies (6 ∷ []) 1 4 0 2 none
    ∷ releases
    ∷ []

run-IsTight_example : IsTight small_pool (run small_pool calls idle)
unfolding held
run-IsTight_example = run-IsTight small_pool calls idle (λ b. refl)

copy_from-copy_to_example :
    (a : Ptr) × ((copy_from_shm small_pool
        (copy_to_shm small_pool idle (1 ∷ 2 ∷ 3 ∷ []) 3 7 0 4 none).1).0
      ≡ some (record { kind = 0; ptr = some a; size = 3; frame_id = 7 }))
    × ((copy_from_shm small_pool
            (copy_to_shm small_pool idle (1 ∷ 2 ∷ 3 ∷ []) 3 7 0 4 none).1).1.memory
          a
        ≡ copied (1 ∷ 2 ∷ 3 ∷ []) 3 none)
    × ((copy_from_shm small_pool
          (copy_to_shm small_pool idle (1 ∷ 2 ∷ 3 ∷ []) 3 7 0 4 none).1).1.queue.nodes
        ≡ [])
    × ((b : Ptr)
        → small_pool.live
            (copy_from_shm small_pool
              (copy_to_shm small_pool idle (1 ∷ 2 ∷ 3 ∷ []) 3 7 0 4 none).1).1.sp
            b
          ≡ (b == a || small_pool.live idle.sp b))
unfolding copy_to_shm put_to_shm_queue
copy_from-copy_to_example =
    copy_from-copy_to small_pool idle (1 ∷ 2 ∷ 3 ∷ []) 3 7 0 4 none refl refl refl

abbrev buffers : List (ShmParam small_pool.Pool)
buffers = idle ∷ record idle { id = 2; usedd = false } ∷ record idle { id = 3 } ∷ []

abbrev sizes : ℕ → Sizes
sizes enable = record {
  master_enable = enable;
  shm_head_size = 4194304;
  video_max = 3;
  video_frame_size_max = 524288;
  video_que_len = 10;
  capture_max = 2;
  capture_frame_size_max = 262144;
  capture_que_len = 5;
}

sizes-IsInt : (enable : ℕ) → IsInt (sizes enable)
sizes-IsInt enable = record { video_size = omega arith; capture_size = omega arith }

init_shm_array-fits_example :
    (rs : List Region) × (end : ℕ) × (init_shm_array (sizes 0) ≡ some rs)
    × Tiles 0 (sizes 0).shm_head_size end rs
    × (end < shm_total_size (sizes 0))
init_shm_array-fits_example = init_shm_array-fits (sizes 0) (sizes-IsInt 0) (inl refl)

init_shm_array_overrun_example :
    (rs : List Region) × (end : ℕ) × (init_shm_array (sizes 1) ≡ some rs)
    × Tiles 0 (sizes 1).shm_head_size end rs
    × (shm_total_size (sizes 1) < end)
init_shm_array_overrun_example = init_shm_array_overrun (sizes 1) (sizes-IsInt 1) refl (omega arith)
