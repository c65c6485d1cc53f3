-- ===== src/Slab.antt =====
-- The slab allocator behind `shmMalloc` and `shmFree` (inc/shm.h), which is third-party code
-- (work/slab). It is a parameter: its pool, its two calls, and what they do to the set of blocks
-- that are handed out.
use aiotc.Prelude.{ℕ, ◌≡◌, Bool, false, not, ◌&&◌, ◌||◌, Option, none, some, arith, ◌==◌}

abbrev pub Ptr : Type 0
Ptr = ℕ

pub record Slab : Type 1 where
  pub Pool : Type 0
  pub malloc : Pool → ℕ → Option Ptr × Pool
  pub free : Pool → Ptr → Pool
  pub live : Pool → Ptr → Bool
  pub malloc_fresh : (p : Pool) (n : ℕ) (a : Ptr) → (malloc p n).0 ≡ some a → live p a ≡ false
  pub malloc_live :
      (p : Pool) (n : ℕ) (a b : Ptr)
      → (malloc p n).0 ≡ some a
      → live (malloc p n).1 b ≡ (b == a || live p b)
  pub malloc_full :
      (p : Pool) (n : ℕ) (b : Ptr) → (malloc p n).0 ≡ none → live (malloc p n).1 b ≡ live p b
  pub free_live : (p : Pool) (a b : Ptr) → live (free p a) b ≡ (not (b == a) && live p b)

module _ (s : Slab) (p : s.Pool) (n : ℕ) (a b : Ptr) (got : (s.malloc p n).0 ≡ some a) where
  -- A block that is given back at once leaves the set of blocks as it was.
  pub free-malloc : s.live (s.free (s.malloc p n).1 a) b ≡ s.live p b
  free-malloc =
      ground (
        arith,
        s.free_live (s.malloc p n).1 a b,
        s.malloc_live p n a b got,
        s.malloc_fresh p n a got,
      )
