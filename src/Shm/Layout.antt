-- ===== src/Shm/Layout.antt =====
-- initShmArray and shmInit of src/shm.cpp: where the buffers lie in the shared segment.
use aiotc.Prelude.{
  ℕ, zero, suc, ◌+◌, ◌*◌, ◌/◌, ◌≤◌, ◌<◌, ◌≡◌, refl, ◌∙◌, ◌⊎◌, ◌||◌, List, [], ◌∷◌, ◌++◌, arith,
  ◌==◌, if◌then◌else◌, Option, none, some, ltb, ◌^◌, true, ◌>>=◌,
}

-- The fields of configParams (inc/db.h) that place the buffers, each below 2 ^ 31: the sums and products
-- of shmInit, which are `long long int`, stay below 2 ^ 63.
pub record Sizes : Type 0 where
  pub master_enable : ℕ
  pub shm_head_size : ℕ
  pub video_max : ℕ
  pub video_frame_size_max : ℕ
  pub video_que_len : ℕ
  pub capture_max : ℕ
  pub capture_frame_size_max : ℕ
  pub capture_que_len : ℕ

abbrev pub align_size : ℕ
align_size = 1024 * 1024

-- The size that shmInit asks of shmget.
unfoldable pub shm_total_size : Sizes → ℕ
shm_total_size c =
    let frames =
      if c.master_enable == 0 || c.master_enable == 2
      then c.video_frame_size_max * c.video_que_len * c.video_max
        + c.capture_frame_size_max * c.capture_que_len * c.capture_max
      else 0 in
    (c.shm_head_size + frames) / align_size * align_size + align_size

-- A buffer's id, its first byte and the first byte behind it, counted from the segment's address.
pub record Region : Type 0 where
  pub id : ℕ
  pub start : ℕ
  pub end : ℕ

-- What a loop of initShmArray leaves: the buffers, its index and `offset`.
pub record Placed : Type 0 where
  pub regions : List Region
  pub index : ℕ
  pub offset : ℕ

-- One loop of initShmArray, which has `n` rounds left.
unfoldable pub place : (n i offset size : ℕ) → Placed
place zero i offset size = record { regions = []; index = i; offset = offset }
place (suc n) i offset size =
    let later = place n (i + 1) (offset + size) size in
    record later {
      regions = record { id = i + 1; start = offset; end = offset + size } ∷ later.regions;
    }

-- The product of two `int`s, or none where it is no `int`: the code's behaviour is undefined there.
abbrev pub int_product : ℕ → ℕ → Option ℕ
int_product a b = if ltb (a * b) (2 ^ 31) then some (a * b) else none

-- The two loops of initShmArray.
abbrev pub place_all : Sizes → (video_shm_size capture_shm_size : ℕ) → List Region
place_all c video_shm_size capture_shm_size =
    let videos = place c.video_max 0 c.shm_head_size video_shm_size in
    let captures = place c.capture_max videos.index videos.offset capture_shm_size in
    videos.regions ++ captures.regions

-- initShmArray, or none where videoShmSize or captureShmSize overflows.
unfoldable pub init_shm_array : Sizes → Option (List Region)
unfolding place
init_shm_array c = do
  video_shm_size ← int_product c.video_frame_size_max c.video_que_len
  capture_shm_size ← int_product c.capture_frame_size_max c.capture_que_len
  some (place_all c video_shm_size capture_shm_size)

-- The buffers from `lo` to `hi` follow one another without a gap or an overlap, numbered from `i`.
pub data Tiles : ℕ → ℕ → ℕ → List Region → Type 0 where
  done : {i lo hi : ℕ} → lo ≡ hi → Tiles i lo hi []
  tile :
      {i lo hi : ℕ} {r : Region} {rs : List Region}
      → r.id ≡ i + 1
      → r.start ≡ lo
      → lo ≤ r.end
      → Tiles (i + 1) r.end hi rs
      → Tiles i lo hi (r ∷ rs)

place-Tiles :
    (n i lo size hi : ℕ) (rs : List Region)
    → Tiles (place n i lo size).index (place n i lo size).offset hi rs
    → Tiles i lo hi ((place n i lo size).regions ++ rs)
unfolding place
place-Tiles zero i lo size hi rs t = t
place-Tiles (suc n) i lo size hi rs t =
    tile refl refl (omega arith) (place-Tiles n (i + 1) (lo + size) size hi rs t)

place-offset : (n i lo size : ℕ) → (place n i lo size).offset ≡ lo + n * size
unfolding place
place-offset zero i lo size = omega arith
place-offset (suc n) i lo size = place-offset n (i + 1) (lo + size) size ∙ grind arith

place_alone-Tiles :
    (n i lo size : ℕ) → Tiles i lo (place n i lo size).offset (place n i lo size).regions
unfolding place
place_alone-Tiles zero i lo size = done refl
place_alone-Tiles (suc n) i lo size =
    tile refl refl (omega arith) (place_alone-Tiles n (i + 1) (lo + size) size)

-- The bytes that the buffers take.
abbrev pub frames_size : Sizes → ℕ
frames_size c =
    c.video_frame_size_max * c.video_que_len * c.video_max
    + c.capture_frame_size_max * c.capture_que_len * c.capture_max

-- Rounding up to a whole alignment unit leaves room, of one unit at most.
align_up :
    (n : ℕ)
    → (n < n / align_size * align_size + align_size)
      × (n / align_size * align_size + align_size ≤ n + align_size)
align_up n = omega arith

-- The size of a buffer of each kind is an `int`.
pub record IsInt (c : Sizes) : Type 0 where
  pub video_size : c.video_frame_size_max * c.video_que_len < 2 ^ 31
  pub capture_size : c.capture_frame_size_max * c.capture_que_len < 2 ^ 31

regions : Sizes → List Region
regions c =
    place_all c (c.video_frame_size_max * c.video_que_len)
      (c.capture_frame_size_max * c.capture_que_len)

init_shm_array-some : (c : Sizes) → IsInt c → init_shm_array c ≡ some (regions c)
unfolding init_shm_array regions
init_shm_array-some c h =
    let v : ltb (c.video_frame_size_max * c.video_que_len) (2 ^ 31) ≡ true =
      ground (arith, h.video_size) in
    let k : ltb (c.capture_frame_size_max * c.capture_que_len) (2 ^ 31) ≡ true =
      ground (arith, h.capture_size) in
    rw (v, k) refl

regions-Tiles : (c : Sizes) → Tiles 0 c.shm_head_size (c.shm_head_size + frames_size c) (regions c)
unfolding regions
regions-Tiles c =
    let v = c.video_frame_size_max * c.video_que_len in
    let k = c.capture_frame_size_max * c.capture_que_len in
    let videos = place c.video_max 0 c.shm_head_size v in
    let end : (place c.capture_max videos.index videos.offset k).offset
        ≡ c.shm_head_size + frames_size c =
      place-offset c.capture_max videos.index videos.offset k
      ∙ omega (arith, place-offset c.video_max 0 c.shm_head_size v) in
    place-Tiles c.video_max 0 c.shm_head_size v _ _
      (rw (← end) (place_alone-Tiles c.capture_max videos.index videos.offset k))

-- Where the size of a buffer of each kind is below 2 ^ 31, on a node that runs a slave (`enable` 0 or
-- 2): no product of initShmArray overflows, and the buffers follow one another from the end of the
-- head area, in the order of their ids from 1, do not overlap, and end inside the segment that
-- shmInit created.
pub init_shm_array-fits :
    (c : Sizes)
    → IsInt c
    → (c.master_enable ≡ 0) ⊎ (c.master_enable ≡ 2)
    → (rs : List Region) × (end : ℕ) × (init_shm_array c ≡ some rs)
      × Tiles 0 c.shm_head_size end rs
      × (end < shm_total_size c)
unfolding shm_total_size
init_shm_array-fits c h e = (
  regions c,
  c.shm_head_size + frames_size c,
  init_shm_array-some c h,
  regions-Tiles c,
  ground (arith, align_up (c.shm_head_size + frames_size c)),
)

-- Where the size of a buffer of each kind is below 2 ^ 31, on a node that runs only a master (`enable`
-- 1) shmInit leaves no room for the buffers, and initShmArray places them all the same: the last one
-- ends behind the segment as soon as the buffers take more than one alignment unit.
pub init_shm_array_overrun :
    (c : Sizes)
    → IsInt c
    → c.master_enable ≡ 1
    → align_size < frames_size c
    → (rs : List Region) × (end : ℕ) × (init_shm_array c ≡ some rs)
      × Tiles 0 c.shm_head_size end rs
      × (shm_total_size c < end)
unfolding shm_total_size
init_shm_array_overrun c h e big = (
  regions c,
  c.shm_head_size + frames_size c,
  init_shm_array-some c h,
  regions-Tiles c,
  ground (arith, align_up (c.shm_head_size + 0)),
)
