-- ===== src/Examples/Previews.antt =====
-- The laws of the previews at two cameras and two buffers.
use aiotc.Prelude.{◌≡◌, refl, true, false, none, some, List, [], ◌∷◌, ℕ, arith}
use aiotc.Cstring.{codes, strcmp_eq, strncmp_eq}
use aiotc.Queue.{empty}
use aiotc.Shm.{ShmParam}
use aiotc.Shm.Owned.{held}
use aiotc.Preview.{Streams, hls, find_ops, preview_start, thread_begin}
use aiotc.Preview.Reads.{Use, writes, reads}
use aiotc.Preview.Life.{IsNext}
use aiotc.Preview.Steps.{life}
use aiotc.Preview.Shared.{IsOver, life-IsOver, life_shared}
use aiotc.Examples.Setup.{small_pool}

abbrev buffer : ℕ → ShmParam small_pool.Pool
buffer id = record {
  id = id;
  kind = codes "video";
  sp = [];
  memory = λ _. [];
  queue = empty;
  usedd = false;
}

abbrev two_buffers : Streams small_pool.Pool
two_buffers = record {
  headsp = [];
  shm_array = buffer 1 ∷ buffer 2 ∷ [];
  video_shm = λ _. none;
  preview_args = λ _. none;
  prew_init = false;
}

abbrev frames : List Use
frames =
    writes (record { buf = 1 ∷ 2 ∷ 3 ∷ []; size = 3; frame_id = 1; kind = 0; max = 2; copy = none })
    ∷ reads 0
    ∷ writes (record { buf = 4 ∷ []; size = 1; frame_id = 2; kind = 0; max = 2; copy = none })
    ∷ []

next : IsNext small_pool [] (buffer 1) (buffer 2 ∷ [])
unfolding strncmp_eq held
next = record {
  skipped = tt;
  alone_before = tt;
  alone_after = (refl, tt);
  free = refl;
  unused = refl;
  tight = λ b. refl;
}

life-IsOver_example :
    (out : Streams small_pool.Pool) × (life small_pool 7 (codes "hls") true true frames two_buffers
      ≡ some out)
    × IsOver small_pool 7 two_buffers [] (buffer 1) (buffer 2 ∷ []) out
unfolding find_ops strcmp_eq
life-IsOver_example =
    life-IsOver small_pool 7 (codes "hls") hls true true frames two_buffers [] (buffer 1)
      (buffer 2 ∷ []) 1 refl refl refl refl refl next refl

life_shared_example :
    (out : Streams small_pool.Pool) × (life small_pool 7 (codes "hls") true true frames two_buffers
      ≡ some out)
    × ((thread_begin small_pool 8 true false
          (preview_start small_pool 8 (codes "http-flv") true out).2).0
        ≡ some 1)
    × ((thread_begin small_pool 7 true true
          (preview_start small_pool 7
            (codes "hls")
            true
            (thread_begin small_pool 8 true false
              (preview_start small_pool 8 (codes "http-flv") true out).2).1).2).0
        ≡ some 1)
unfolding find_ops strcmp_eq
life_shared_example =
    life_shared small_pool 7 (codes "hls") hls true true frames two_buffers [] (buffer 1)
      (buffer 2 ∷ []) 1 refl refl refl refl refl next refl 8 (λ e. absurd (omega (arith, e))) refl
      (codes "http-flv") (codes "hls") true false true true
