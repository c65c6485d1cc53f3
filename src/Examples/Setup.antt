-- ===== src/Examples/Setup.antt =====
-- A pool of at most 64 blocks and a JSON library with one document, for the examples.
use aiotc.Prelude.{
  ℕ, ◌+◌, ◌≤◌, ◌≡◌, ◌≢◌, refl, ap, Bool, true, false, not, ◌&&◌, ◌||◌, Option, none, some, List, [],
  ◌∷◌, ℤ, pos, arith, ltb, ◌==◌, if◌then◌else◌, length,
}
use aiotc.Cstring.{Text, codes, strcmp_eq}
use aiotc.Slab.{Ptr, Slab}
use aiotc.Json.{Host}
use aiotc.Queue.{Queue}

-- The live blocks. A new block lies behind them all.
abbrev blocks_live : List Ptr → Ptr → Bool
blocks_live [] b = false
blocks_live (a ∷ ps) b = b == a || blocks_live ps b

abbrev top : List Ptr → Ptr
top [] = 1
top (a ∷ ps) = if ltb a (top ps) then top ps else a + 1

abbrev take_block : List Ptr → ℕ → Option Ptr × List Ptr
take_block ps n = if ltb (length ps) 64 then (some (top ps), top ps ∷ ps) else (none, ps)

abbrev give_back : List Ptr → Ptr → List Ptr
give_back [] b = []
give_back (a ∷ ps) b = if a == b then give_back ps b else a ∷ give_back ps b

pub above_top : (ps : List Ptr) (b : Ptr) → top ps ≤ b → blocks_live ps b ≡ false
above_top [] b h = refl
above_top (a ∷ ps) b h = ground (arith, above_top ps b)

pub give_back_live :
    (ps : List Ptr) (a b : Ptr)
    → blocks_live (give_back ps a) b ≡ (not (b == a) && blocks_live ps b)
give_back_live [] a b = ground arith
give_back_live (x ∷ ps) a b = ground (arith, give_back_live ps a b)

pub take_fresh : (ps : List Ptr) (n a : ℕ) → (take_block ps n).0 ≡ some a → blocks_live ps a ≡ false
take_fresh ps n a e = ground (arith, above_top ps (top ps))

pub take_live :
    (ps : List Ptr) (n a b : ℕ)
    → (take_block ps n).0 ≡ some a
    → blocks_live (take_block ps n).1 b ≡ (b == a || blocks_live ps b)
take_live ps n a b e = ground arith

pub take_full :
    (ps : List Ptr) (n b : ℕ)
    → (take_block ps n).0 ≡ none
    → blocks_live (take_block ps n).1 b ≡ blocks_live ps b
take_full ps n b e = ground arith

abbrev pub small_pool : Slab
small_pool = record {
  Pool = List Ptr;
  malloc = take_block;
  free = give_back;
  live = blocks_live;
  malloc_fresh = take_fresh;
  malloc_live = take_live;
  malloc_full = take_full;
  free_live = give_back_live;
}

-- The items of `{"id": 7, "data": {"subtype": "rtsp", "ids": [4, 5]}}`, numbered from the root.
abbrev items : ℕ → Text → Option ℕ
items n name =
    if (n == 0) && strcmp_eq name (codes "id")
    then some 1
    else if (n == 0) && strcmp_eq name (codes "data")
    then some 2
    else if (n == 2) && strcmp_eq name (codes "subtype")
    then some 3
    else if (n == 2) && strcmp_eq name (codes "ids")
    then some 4
    else none

abbrev pub one_document : Host
one_document = record {
  Item = ℕ;
  Double = ℤ;
  double_minus_one = pos 0;
  parse = λ t. elim t [ [] ↦ none | _ ∷ _ ↦ some 0 ];
  get_object_item = items;
  valueint = λ n. if n == 1 then pos 7 else pos n;
  valuedouble = λ n. pos n;
  valuestring = λ n. if n == 3 then some (codes "rtsp") else none;
  print = λ n. if n == 0 then some (codes "{}") else none;
  get_array_size = λ n. if n == 4 then 2 else 0;
  get_array_item = λ n i. if (n == 4) && ltb i 2 then some (n + 1 + i) else none;
  delete_item = λ root keys name. root;
  malloc = λ n. true;
  file = λ name. none;
}

-- Queues of different counts are different.
pub longer : {A : Type 0} {xs ys : Queue A} → xs.que_len ≢ ys.que_len → xs ≢ ys
longer h e = h (ap (λ q. q.que_len) e)
