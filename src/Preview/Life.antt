-- ===== src/Preview/Life.antt =====
-- The buffer of a camera over the life of a preview (src/preview/hls.cpp, src/preview/httpflv.cpp).
use aiotc.Prelude.{
  ℕ, ◌≡◌, ◌≢◌, refl, ◌∙◌, ap, true, false, none, some, List, [], ◌∷◌, ◌++◌, All, pos, arith, ◌==◌,
  ==_iff,
}
use aiotc.Cstring.{codes}
use aiotc.Slab.{Ptr, Slab}
use aiotc.Queue.{free_shm_queue}
use aiotc.Shm.{ShmParam, get_free_shm, set_shm_user, release_shm, clear_shm_queue}
use aiotc.Shm.Free.{is_free, taken}
use aiotc.Shm.Owned.{IsTight, set_shm_user-IsTight, release_shm-IsTight, held}
use aiotc.Preview.Reads.{Use, run, run-Same, run-IsTight}
use aiotc.Preview.{Streams, set_buffer, put, leave_buffer, alloc_video_shm, take_buffer}

pub put_same : {A : Type 0} (f : ℕ → A) (id : ℕ) (x : A) → put f id x id ≡ x
put_same f id x = rw ((==_iff id id).1 refl) refl

pub put_apart : {A : Type 0} (f : ℕ → A) (id : ℕ) (x : A) (i : ℕ) → i ≢ id → put f id x i ≡ f i
put_apart f id x i h =
    let differ : (i == id) ≡ false = ground (arith, ==_iff i id) in rw differ refl

module _ (s : Slab) where
  module _ (b : ℕ) (f : ShmParam s.Pool → ShmParam s.Pool) where
    set_buffer_apart :
        (ps : List (ShmParam s.Pool)) → All (λ q. (q.id == b) ≡ false) ps → set_buffer s b f ps ≡ ps
    unfolding set_buffer
    set_buffer_apart [] h = refl
    set_buffer_apart (p ∷ ps) h = rw (h.0) (ap (◌∷◌ p) (set_buffer_apart ps h.1))

    -- The buffer of the id is written, the others stay.
    pub set_buffer_at :
        (before after : List (ShmParam s.Pool)) (q : ShmParam s.Pool)
        → All (λ q. (q.id == b) ≡ false) before
        → All (λ q. (q.id == b) ≡ false) after
        → (q.id == b) ≡ true
        → set_buffer s b f (before ++ q ∷ after) ≡ before ++ f q ∷ after
    unfolding set_buffer
    set_buffer_at [] after q hb ha e = rw e (ap (◌∷◌ (f q)) (set_buffer_apart after ha))
    set_buffer_at (p ∷ ps) after q hb ha e =
        rw (hb.0) (ap (◌∷◌ p) (set_buffer_at ps after q hb.1 ha e))

  get_free_shm_at :
      (before after : List (ShmParam s.Pool)) (p : ShmParam s.Pool)
      → All (λ q. is_free s (codes "video") q ≡ false) before
      → is_free s (codes "video") p ≡ true
      → get_free_shm s (codes "video") (before ++ p ∷ after)
        ≡ (some (taken s (codes "video") p), before ++ taken s (codes "video") p ∷ after)
  unfolding get_free_shm
  get_free_shm_at [] after p h e = rw e refl
  get_free_shm_at (q ∷ qs) after p h e = rw (h.0, get_free_shm_at qs after p h.1 e) refl

  -- The first free buffer of the array: no other has its id, nobody uses it, and the blocks handed
  -- out by its pool are those of its frames.
  pub record IsNext (before : List (ShmParam s.Pool)) (p : ShmParam s.Pool)
      (after : List (ShmParam s.Pool)) : Type 0 where
    pub skipped : All (λ q. is_free s (codes "video") q ≡ false) before
    pub alone_before : All (λ q. (q.id == p.id) ≡ false) before
    pub alone_after : All (λ q. (q.id == p.id) ≡ false) after
    pub free : is_free s (codes "video") p ≡ true
    pub unused : p.queue.use_max ≡ 0
    pub tight : IsTight s p

  -- The buffer at the end of the thread.
  abbrev pub left : List Use → ShmParam s.Pool → ShmParam s.Pool
  left frames p = leave_buffer s (run s frames (set_shm_user s (taken s (codes "video") p) true))

  -- What is left of the buffer: nobody uses it, it holds no frame, and its pool has handed out no
  -- block.
  pub record IsLeft (p q : ShmParam s.Pool) : Type 0 where
    pub same_id : q.id ≡ p.id
    pub same_kind : q.kind ≡ p.kind
    pub not_used : q.usedd ≡ false
    pub no_users : q.queue.use_max ≡ 0
    pub no_frames : q.queue.nodes ≡ []
    pub no_blocks : (b : Ptr) → s.live q.sp b ≡ false

  leave_buffer_last :
      (w : ShmParam s.Pool)
      → w.queue.use_max ≡ 1
      → leave_buffer s w ≡ release_shm s (set_shm_user s w false)
  unfolding leave_buffer set_shm_user clear_shm_queue free_shm_queue
  leave_buffer_last w u = rw u refl

  pub left-IsLeft :
      (frames : List Use) (p : ShmParam s.Pool)
      → p.queue.use_max ≡ 0
      → IsTight s p
      → IsLeft p (left frames p)
  unfolding set_shm_user release_shm clear_shm_queue free_shm_queue held
  left-IsLeft frames p u h =
      let p1 : ShmParam s.Pool = set_shm_user s (taken s (codes "video") p) true in
      let (i, k, d, m) = run-Same s frames p1 in
      let t1 : IsTight s p1 = set_shm_user-IsTight s (taken s (codes "video") p) true h in
      let t2 = run-IsTight s frames p1 (ground (arith, u)) tt t1 in
      let w = run s frames p1 in
      let one : w.queue.use_max ≡ 1 = ground (arith, m, u) in
      rw (leave_buffer_last w one) (record {
        same_id = i;
        same_kind = k;
        not_used = refl;
        no_users = ground (arith, one);
        no_frames = refl;
        no_blocks =
            release_shm-IsTight s (set_shm_user s w false) (set_shm_user-IsTight s w false t2);
      })

  -- The state in which the camera of an object has taken a buffer.
  abbrev pub took :
      ℕ
      → Streams s.Pool
      → List (ShmParam s.Pool)
      → ShmParam s.Pool
      → List (ShmParam s.Pool)
      → Streams s.Pool
  took id st before p after = record st {
    shm_array = before ++ taken s (codes "video") p ∷ after;
    video_shm = put st.video_shm id (some p.id);
  }

  pub alloc_video_shm_fresh :
      (id : ℕ) (st : Streams s.Pool) (before : List (ShmParam s.Pool)) (p : ShmParam s.Pool)
      (after : List (ShmParam s.Pool))
      → IsNext before p after
      → st.shm_array ≡ before ++ p ∷ after
      → st.video_shm id ≡ none
      → alloc_video_shm s id st ≡ (pos 0, took id st before p after)
  unfolding alloc_video_shm
  alloc_video_shm_fresh id st before p after next array fresh =
      rw (fresh, alloc_video_shm)
        (ap (take_buffer s id st) (
          ap (get_free_shm s (codes "video")) array
          ∙ get_free_shm_at before after p next.skipped next.free))
