-- ===== src/Work/Copied.antt =====
-- copyToMqQueue on the queue of messages (src/work.cpp).
use aiotc.Prelude.{
  ℕ, ◌||◌, ◌≡◌, inl, inr, refl, sym, ap, ◌∙◌, Bool, true, false, ◌&&◌, none, some, [], ◌∷◌, ◌++◌,
  arith, ◌==◌, ltb, length, take_all, length-append, Option-cases, is_some,
}
use mathlib.Core.List.{append-nil}
use aiotc.Cstring.{Text, strncpy}
use aiotc.Json.{buffer_size}
use aiotc.Slab.{Ptr, Slab, free-malloc}
use aiotc.Queue.{node_size}
use aiotc.Queue.Blocks.{owns}
use aiotc.Queue.Puts.{put-Puts, full, no_memory, stored}
use aiotc.Shm.{write}
use aiotc.Work.{OutState, text_node, copy_to_mq_queue}
use aiotc.Work.Queued.{
  OutCell, texts, texts-write, texts-append, owns-append, Apart-append, IsOut, copies, step, taken,
}
use aiotc.Work.Rounds.{Moves}

module _ (s : Slab) where
  -- The pool and the memory may change but for what the queue owns.
  same_queue :
      (others : Ptr → Bool) (st : OutState s.Pool) (sp : s.Pool) (memory : Ptr → Text)
      → IsOut s others st
      → ((b : Ptr) → s.live sp b ≡ s.live st.sp b)
      → texts memory st.queue.nodes ≡ texts st.memory st.queue.nodes
      → Moves s others st [] ([], record st { sp = sp; memory = memory })
  same_queue others st sp memory h l t = record {
    is_out = record {
      tight = λ b. l b ∙ h.tight b;
      foreign = h.foreign;
      apart = h.apart;
      counted = h.counted;
    };
    order = t ∙ sym (append-nil (texts st.memory st.queue.nodes));
  }

  pub copy-Moves :
      (others : Ptr → Bool) (json : Text) (st : OutState s.Pool)
      → IsOut s others st
      → Moves s others st (taken s (copies json) st) (step s (copies json) st)
  unfolding step taken copy_to_mq_queue
  copy-Moves others json st h = elim (Option-cases (s.malloc st.sp len).0) [
    | inl e ↦
        rw (e, copy_to_mq_queue)
          (same_queue others st pool1 st.memory h (λ b. s.malloc_full st.sp len b e) refl)
    | inr (a, e) ↦ elim (put-Puts s pool1 st.queue (text_node a) 1000) [
      | full le r ↦
          (let no : room ≡ false = ground (arith, le) in
            rw (e, copy_to_mq_queue, r, no)
              (same_queue others st (s.free pool1 a) (write st.memory a copy) h
                (λ b. free-malloc s st.sp len a b e) (kept a e)))
      | no_memory m r ↦
          (let no : room ≡ false = ground (arith, m) in
            rw (e, copy_to_mq_queue, r, no)
              (same_queue others st (s.free (s.malloc pool1 node_size).1 a) (write st.memory a copy)
                h (freed a e m) (kept a e)))
      | stored x lt m r ↦
          (let yes_room : room ≡ true = ground (arith, lt, m) in
            rw (e, copy_to_mq_queue, r, yes_room)
              record {
                is_out = record {
                  tight = λ b. linked a x b e m;
                  foreign = λ b o. alien a x b e m o;
                  apart =
                      Apart-append st.queue.nodes a x h.apart (unowned a e) (other a x e m).1
                        (other a x e m).0;
                  counted = omega (arith, h.counted, length-append st.queue.nodes (new a x ∷ []));
                };
                order =
                    texts-append (write st.memory a copy) st.queue.nodes (new a x ∷ [])
                    ∙ ap (λ ts. ts ++ write st.memory a copy a ∷ []) (kept a e)
                    ∙ ap (λ t. texts st.memory st.queue.nodes ++ t ∷ []) (written a);
              })
    ]
  ]
    where
      len : ℕ
      len = buffer_size (length json)

      pool1 : s.Pool
      pool1 = (s.malloc st.sp len).1

      room : Bool
      room = ltb st.queue.que_len 1000 && is_some (s.malloc pool1 node_size).0

      copy : Text
      copy = strncpy len json

      new : Ptr → Ptr → OutCell
      new a x = record { addr = x; node = text_node a }

      unowned : (a : Ptr) → (s.malloc st.sp len).0 ≡ some a → owns a st.queue.nodes ≡ false
      unowned a e = ground (arith, h.tight a, s.malloc_fresh st.sp len a e)

      kept :
          (a : Ptr)
          → (s.malloc st.sp len).0 ≡ some a
          → texts (write st.memory a copy) st.queue.nodes ≡ texts st.memory st.queue.nodes
      kept a e = texts-write st.memory a copy st.queue.nodes (unowned a e)

      freed :
          (a : Ptr)
          → (s.malloc st.sp len).0 ≡ some a
          → (s.malloc pool1 node_size).0 ≡ none
          → (b : Ptr) → s.live (s.free (s.malloc pool1 node_size).1 a) b ≡ s.live st.sp b
      freed a e m b = ground (
        arith,
        s.free_live (s.malloc pool1 node_size).1 a b,
        s.malloc_full pool1 node_size b m,
        s.free_live pool1 a b,
        free-malloc s st.sp len a b e,
      )

      other :
          (a x : Ptr)
          → (s.malloc st.sp len).0 ≡ some a
          → (s.malloc pool1 node_size).0 ≡ some x
          → ((x == a) ≡ false) × (owns x st.queue.nodes ≡ false)
      other a x e m =
          let fresh = s.malloc_fresh pool1 node_size x m in
          (
            ground (arith, fresh, s.malloc_live st.sp len a x e),
            ground (arith, fresh, s.malloc_live st.sp len a x e, h.tight x),
          )

      linked :
          (a x b : Ptr)
          → (s.malloc st.sp len).0 ≡ some a
          → (s.malloc pool1 node_size).0 ≡ some x
          → s.live (s.malloc pool1 node_size).1 b
            ≡ (owns b (st.queue.nodes ++ new a x ∷ []) || others b)
      linked a x b e m =
          s.malloc_live pool1 node_size x b m
          ∙ rw
              (
                s.malloc_live st.sp len a b e,
                h.tight b,
                owns-append b st.queue.nodes (new a x ∷ []),
              )
              (unfold owns in ground arith)

      alien :
          (a x b : Ptr)
          → (s.malloc st.sp len).0 ≡ some a
          → (s.malloc pool1 node_size).0 ≡ some x
          → owns b (st.queue.nodes ++ new a x ∷ []) ≡ true
          → others b ≡ false
      alien a x b e m o =
          let either = sym (owns-append b st.queue.nodes (new a x ∷ [])) ∙ o in
          unfold owns in
          ground (
            arith,
            either,
            h.foreign b,
            h.tight b,
            s.malloc_fresh st.sp len a e,
            s.malloc_fresh pool1 node_size x m,
            s.malloc_live st.sp len a b e,
          )

      written : (a : Ptr) → write st.memory a copy a ≡ json
      written a = ground (arith, take_all len json (omega arith))
