-- ===== src/Work/Rounds.antt =====
-- A round of output_thread (src/work.cpp), on the queue of messages.
use aiotc.Prelude.{
  suc_==_zero, ◌||◌, ℕ, zero, suc, ◌≡◌, refl, sym, ap, ◌∙◌, Bool, true, false, some, List, [], ◌∷◌,
  ◌++◌, map, arith, if◌then◌else◌,
}
use mathlib.Core.List.{append-nil}
use aiotc.Cstring.{Text}
use aiotc.Slab.{Ptr, Slab}
use aiotc.Queue.{get_from_queue, free_arg}
use aiotc.Queue.Blocks.{owns, free_arg-live}
use aiotc.Work.{OutState, Left, text_of, json_of, output_round, send_msg2_mq, dropped}
use aiotc.Work.Queued.{OutCell, Apart, texts, IsOut, outputs, step}

module _ (s : Slab) where
  -- What a call does to the queue and to the texts in it, which takes the texts `new`.
  pub record Moves (others : Ptr → Bool) (st : OutState s.Pool) (new : List Text)
      (out : List Left × OutState s.Pool) : Type 0 where
    pub is_out : IsOut s others out.1
    pub order :
        map text_of out.0 ++ texts out.1.memory out.1.queue.nodes
        ≡ texts st.memory st.queue.nodes ++ new

  unfoldable pub state :
      s.Pool → (Ptr → Text) → List OutCell → (use_max n : ℕ) → Bool → OutState s.Pool
  state sp memory ps use_max n conn = record {
    sp = sp;
    memory = memory;
    queue = record { nodes = ps; use_max = use_max; que_len = n };
    conn = conn;
  }

  free-owns :
      (sp : s.Pool) (p : OutCell) (ps : List OutCell) (others : Ptr → Bool)
      → Apart (p ∷ ps)
      → ((b : Ptr) → s.live sp b ≡ (owns b (p ∷ ps) || others b))
      → ((b : Ptr) → owns b (p ∷ ps) ≡ true → others b ≡ false)
      → (b : Ptr) → s.live (s.free (free_arg s sp p.arg) p.addr) b ≡ (owns b ps || others b)
  unfolding owns
  free-owns sp p ps others h tight foreign b = ground (
    arith,
    s.free_live (free_arg s sp p.arg) p.addr b,
    free_arg-live s sp p.arg b,
    tight b,
    foreign b,
    h.0 b,
  )

  -- What is said of the message that a round takes off.
  abbrev fate : (takes conn : Bool) → Text → Left
  fate takes conn json = if conn then send_msg2_mq s takes json else dropped json

  text_of-fate : (takes conn : Bool) (json : Text) → text_of (fate takes conn json) ≡ json
  text_of-fate true true json = refl
  text_of-fate true false json = refl
  text_of-fate false true json = refl
  text_of-fate false false json = refl

  output_round-takes :
      (takes opens : Bool) (sp : s.Pool) (memory : Ptr → Text) (p : OutCell) (ps : List OutCell)
      (use_max n : ℕ) (conn : Bool)
      → output_round s takes opens (state sp memory (p ∷ ps) use_max (suc n) conn) ≡ (
        some (fate takes conn (json_of memory p)),
        state
            (s.free (free_arg s sp p.arg) p.addr)
            memory
            ps
            use_max
            n
            (if conn then takes else opens),
      )
  unfolding state output_round get_from_queue
  output_round-takes takes opens sp memory p ps use_max n conn = ground (arith, suc_==_zero n)

  pub output_nodes :
      (takes opens : Bool) (sp : s.Pool) (memory : Ptr → Text) (ps : List OutCell) (use_max n : ℕ)
      (conn : Bool) (others : Ptr → Bool)
      → IsOut s others (state sp memory ps use_max n conn)
      → Moves others
          (state sp memory ps use_max n conn)
          []
          (step s (outputs takes opens) (state sp memory ps use_max n conn))
  unfolding step
  output_nodes takes opens sp memory [] use_max n conn others h =
      unfold state output_round get_from_queue in
      record {
        is_out = record { tight = h.tight; foreign = h.foreign; apart = tt; counted = h.counted };
        order = refl;
      }
  output_nodes takes opens sp memory (p ∷ ps) use_max zero conn others h =
      unfold state in absurd (omega (arith, h.counted))
  output_nodes takes opens sp memory (p ∷ ps) use_max (suc n) conn others h =
      rw (output_round-takes takes opens sp memory p ps use_max n conn) (
        unfold state in
        record {
          is_out = record {
            tight = free-owns sp p ps others h.apart h.tight h.foreign;
            foreign = λ b o. unfold owns in ground (arith, h.foreign b, o);
            apart = h.apart.2;
            counted = omega (arith, h.counted);
          };
          order =
              ap (λ t. t ∷ texts memory ps) (text_of-fate takes conn (json_of memory p))
              ∙ ap (λ ts. json_of memory p ∷ ts) (sym (append-nil (texts memory ps)));
        })
