-- ===== src/Work/Queued.antt =====
-- The queue of messages of the work process (src/work.cpp): the texts in it, the blocks of its nodes,
-- and its calls in any order.
use aiotc.Prelude.{
  ℕ, not, ◌≡◌, inl, inr, refl, ap, Bool, true, false, ◌&&◌, ◌||◌, Option, none, some, List, [], ◌∷◌,
  ◌++◌, map, arith, ◌==◌, ltb, if◌then◌else◌, length, Option-cases, is_some,
}
use aiotc.Cstring.{Text}
use aiotc.Json.{buffer_size}
use aiotc.Slab.{Ptr, Slab}
use aiotc.Queue.{Cell, node_size}
use aiotc.Queue.Blocks.{is_arg, owns}
use aiotc.Shm.{write}
use aiotc.Work.{OutState, Left, json_of, text_node, copy_to_mq_queue, output_round}

abbrev pub OutCell : Type 0
OutCell = Cell (Unit {0})

-- The blocks of different nodes, and the two of one node, are different, and each node has its text.
abbrev pub Apart : List OutCell → Type 0
Apart [] = Unit
Apart (p ∷ ps) =
    ((b : Ptr) → (b == p.addr || is_arg b p.arg) ≡ true → owns b ps ≡ false)
    × (is_arg p.addr p.arg ≡ false)
    × Apart ps

-- The texts in the queue, in order.
abbrev pub texts : (Ptr → Text) → List OutCell → List Text
texts memory ps = map (json_of memory) ps

pub texts-write :
    (memory : Ptr → Text) (a : Ptr) (t : Text) (ps : List OutCell)
    → owns a ps ≡ false
    → texts (write memory a t) ps ≡ texts memory ps
unfolding owns
texts-write memory a t [] h = refl
texts-write memory a t (p ∷ ps) h = elim (Option-cases p.arg) [
  | inl e ↦ ground (arith, texts-write memory a t ps, e)
  | inr (c, e) ↦ ground (arith, texts-write memory a t ps, e)
]

pub texts-append :
    (memory : Ptr → Text) (xs ys : List OutCell)
    → texts memory (xs ++ ys) ≡ texts memory xs ++ texts memory ys
texts-append memory [] ys = refl
texts-append memory (x ∷ xs) ys = ap (λ t. json_of memory x ∷ t) (texts-append memory xs ys)

pub owns-append : (b : Ptr) (xs ys : List OutCell) → owns b (xs ++ ys) ≡ (owns b xs || owns b ys)
unfolding owns
owns-append b [] ys = refl
owns-append b (x ∷ xs) ys = ground (arith, owns-append b xs ys)

pub Apart-append :
    (ps : List OutCell) (a x : Ptr)
    → Apart ps
    → owns a ps ≡ false
    → owns x ps ≡ false
    → (x == a) ≡ false
    → Apart (ps ++ record { addr = x; node = text_node a } ∷ [])
unfolding owns
Apart-append [] a x h ha hx ne = ((λ b e. refl), ne, tt)
Apart-append (p ∷ ps) a x h ha hx ne = (
  (λ b e.
      ground (
        arith,
        owns-append b ps (record { addr = x; node = text_node a } ∷ []),
        h.0 b e,
        e,
        hx,
        ha,
      )),
  h.1,
  Apart-append ps a x h.2 (ground (arith, ha)) (ground (arith, hx)) ne,
)

-- copyToMqQueue by a callback, a round of output_thread, or what the other parts of the program do with
-- the shared memory between them: they take a block, or give one back that the queue does not own.
pub data Call : Type 0 where
  copies : Text → Call
  outputs : (takes opens : Bool) → Call
  others_take : ℕ → Call
  others_free : Ptr → Call

-- What leaves the queue in a call, and the text that a call puts into it.
abbrev pub left : Option Left → List Left
left none = []
left (some l) = l ∷ []

module _ (s : Slab) where
  -- The blocks handed out are those of the nodes, which have different ones, and those of the other
  -- parts, `others`, which the queue does not own; the count is exact.
  pub record IsOut (others : Ptr → Bool) (st : OutState s.Pool) : Type 0 where
    pub tight : (b : Ptr) → s.live st.sp b ≡ (owns b st.queue.nodes || others b)
    pub foreign : (b : Ptr) → owns b st.queue.nodes ≡ true → others b ≡ false
    pub apart : Apart st.queue.nodes
    pub counted : st.queue.que_len ≡ length st.queue.nodes

  unfoldable pub step : Call → OutState s.Pool → List Left × OutState s.Pool
  step (copies json) st = ([], (copy_to_mq_queue s json st).1)
  step (outputs takes opens) st = let out = output_round s takes opens st in (left out.0, out.1)
  step (others_take n) st = ([], record st { sp = (s.malloc st.sp n).1 })
  step (others_free a) st =
      ([], if owns a st.queue.nodes then st else record st { sp = s.free st.sp a })

  -- The blocks of the other parts after a call, and after a sequence.
  unfoldable pub others_after : Call → OutState s.Pool → (Ptr → Bool) → Ptr → Bool
  others_after (copies json) st others b = others b
  others_after (outputs takes opens) st others b = others b
  others_after (others_take n) st others b = is_arg b (s.malloc st.sp n).0 || others b
  others_after (others_free a) st others b =
      if owns a st.queue.nodes then others b else not (b == a) && others b

  unfoldable pub run : List Call → OutState s.Pool → List Left × OutState s.Pool
  unfolding step
  run [] st = ([], st)
  run (c ∷ cs) st = let now = step c st in let later = run cs now.1 in (now.0 ++ later.0, later.1)

  unfoldable pub others_left : List Call → OutState s.Pool → (Ptr → Bool) → Ptr → Bool
  unfolding step others_after
  others_left [] st others = others
  others_left (c ∷ cs) st others = others_left cs (step c st).1 (others_after c st others)

  -- The text that a call takes: copyToMqQueue takes its text exactly if the allocator grants the
  -- buffer, and the queue has room, and the allocator grants the node.
  unfoldable pub taken : Call → OutState s.Pool → List Text
  taken (copies json) st =
      let got = s.malloc st.sp (buffer_size (length json)) in
      if is_some got.0 && (ltb st.queue.que_len 1000 && is_some (s.malloc got.1 node_size).0)
      then json ∷ []
      else []
  taken (outputs takes opens) st = []
  taken (others_take n) st = []
  taken (others_free a) st = []

  unfoldable pub accepted : List Call → OutState s.Pool → List Text
  unfolding step taken
  accepted [] st = []
  accepted (c ∷ cs) st = taken c st ++ accepted cs (step c st).1
