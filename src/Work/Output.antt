-- ===== src/Work/Output.antt =====
-- The messages of the work process on their way (src/work.cpp).
use aiotc.Prelude.{
  ℕ, Bool-cases, ◌≡◌, inl, inr, sym, ap, ◌∙◌, Bool, List, [], ◌∷◌, ◌++◌, map, arith, Option-cases,
}
use mathlib.Core.List.{append-nil, append_assoc, map-append}
use aiotc.Cstring.{Text}
use aiotc.Slab.{Ptr, Slab}
use aiotc.Queue.Blocks.{owns}
use aiotc.Work.{OutState, text_of}
use aiotc.Work.Queued.{
  texts, IsOut, Call, copies, outputs, others_take, others_free, step, run, taken, accepted,
  others_after, others_left,
}
use aiotc.Work.Rounds.{Moves, state, output_nodes}
use aiotc.Work.Copied.{copy-Moves}

-- Two stretches of calls after one another.
in_order :
    (l1 l2 t1 t2 t0 n a : List Text)
    → l1 ++ t1 ≡ t0 ++ n
    → l2 ++ t2 ≡ t1 ++ a
    → (l1 ++ l2) ++ t2 ≡ t0 ++ (n ++ a)
in_order l1 l2 t1 t2 t0 n a p q =
    append_assoc l1 l2 t2
    ∙ ap (λ t. l1 ++ t) q
    ∙ sym (append_assoc l1 t1 a)
    ∙ ap (λ t. t ++ a) p
    ∙ append_assoc t0 n a

module _ (s : Slab) where
  -- The other parts take a block that is not the queue's, and give back such blocks only.
  take-Moves :
      (others : Ptr → Bool) (n : ℕ) (st : OutState s.Pool)
      → IsOut s others st
      → Moves s (others_after s (others_take n) st others) st [] (step s (others_take n) st)
  unfolding step others_after
  take-Moves others n st h = record {
    is_out = record {
      tight = λ b. elim (Option-cases (s.malloc st.sp n).0) [
        | inl e ↦ ground (arith, e, s.malloc_full st.sp n b e, h.tight b)
        | inr (a, e) ↦ ground (arith, e, s.malloc_live st.sp n a b e, h.tight b)
      ];
      foreign = λ b o. elim (Option-cases (s.malloc st.sp n).0) [
        | inl e ↦ ground (arith, e, h.foreign b o)
        | inr (a, e) ↦ ground (arith, e, h.foreign b o, o, h.tight b, s.malloc_fresh st.sp n a e)
      ];
      apart = h.apart;
      counted = h.counted;
    };
    order = sym (append-nil (texts st.memory st.queue.nodes));
  }

  free-Moves :
      (others : Ptr → Bool) (a : Ptr) (st : OutState s.Pool)
      → IsOut s others st
      → Moves s (others_after s (others_free a) st others) st [] (step s (others_free a) st)
  unfolding step others_after
  free-Moves others a st h = elim (Bool-cases (owns a st.queue.nodes)) [
    | inl own ↦ rw own (record {
      is_out = record {
        tight = λ b. ground (arith, own, h.tight b);
        foreign = λ b o. ground (arith, own, h.foreign b o);
        apart = h.apart;
        counted = h.counted;
      };
      order = sym (append-nil (texts st.memory st.queue.nodes));
    })
    | inr other ↦ rw other (record {
      is_out = record {
        tight = λ b. ground (arith, other, s.free_live st.sp a b, h.tight b);
        foreign = λ b o. ground (arith, other, h.foreign b o);
        apart = h.apart;
        counted = h.counted;
      };
      order = sym (append-nil (texts st.memory st.queue.nodes));
    })
  ]

  step-Moves :
      (c : Call) (st : OutState s.Pool) (others : Ptr → Bool)
      → IsOut s others st
      → Moves s (others_after s c st others) st (taken s c st) (step s c st)
  unfolding others_after
  step-Moves (copies json) st others h = copy-Moves s others json st h
  step-Moves (outputs takes opens) st others h =
      unfold taken state in
      output_nodes s takes opens st.sp st.memory st.queue.nodes st.queue.use_max st.queue.que_len
        st.conn others h
  step-Moves (others_take n) st others h = unfold taken in take-Moves others n st h
  step-Moves (others_free a) st others h = unfold taken in free-Moves others a st h

  -- Where the blocks handed out are those of the queued messages and of their nodes, and those of the
  -- other parts of the program, which the queue does not own, with a count that is exact, they are so
  -- after every sequence of copyToMqQueue, rounds of output_thread, and blocks that the other parts
  -- take or give back, whatever the allocator and the broker answer: the queue loses no block and
  -- touches none of another part; and the messages that left the queue, in order, followed by
  -- those that are still in it, are those that were in it at first, followed by those that
  -- copyToMqQueue took: each whole, once, and in the order in which they came.
  pub run-Moves :
      (cs : List Call) (st : OutState s.Pool) (others : Ptr → Bool)
      → IsOut s others st
      → IsOut s (others_left s cs st others) (run s cs st).1
        × (map text_of (run s cs st).0 ++ texts (run s cs st).1.memory (run s cs st).1.queue.nodes
            ≡ texts st.memory st.queue.nodes ++ accepted s cs st)
  unfolding run accepted others_left
  run-Moves [] st others h = (h, sym (append-nil (texts st.memory st.queue.nodes)))
  run-Moves (c ∷ cs) st others h =
      let now = step-Moves c st others h in
      let (is_out, order) = run-Moves cs (step s c st).1 (others_after s c st others) now.is_out in
      (
        is_out,
        ap
              (λ ts.
                ts
                ++ texts (run s cs (step s c st).1).1.memory
                    (run s cs (step s c st).1).1.queue.nodes)
              (map-append text_of (step s c st).0 (run s cs (step s c st).1).0)
            ∙ in_order (map text_of (step s c st).0) (map text_of (run s cs (step s c st).1).0)
                (texts (step s c st).1.memory (step s c st).1.queue.nodes)
                (texts (run s cs (step s c st).1).1.memory (run s cs (step s c st).1).1.queue.nodes)
                (texts st.memory st.queue.nodes) (taken s c st) (accepted s cs (step s c st).1)
                now.order order,
      )
