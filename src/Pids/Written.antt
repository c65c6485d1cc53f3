-- ===== src/Pids/Written.antt =====
-- A search of the processes after a write to one of them (src/pids.cpp over src/queue.cpp).
use aiotc.Prelude.{
  ◌≡◌, refl, Bool, true, false, none, some, List, [], ◌∷◌, map, arith, ◌==◌, if◌then◌else◌, inl,
  inr, Bool-cases, ==_iff,
}
use aiotc.Slab.{Ptr}
use aiotc.Queue.{Cell, find_first}
use aiotc.Pids.{PidOps}

-- A write to the process at an address, on the nodes of the table.
abbrev pub written : Ptr → PidOps → Cell PidOps → Cell PidOps
written a ops p = if p.addr == a then record p { node = record (p.node) { name = ops } } else p

pub find_first-holds :
    (c : Cell PidOps → Bool) (ps : List (Cell PidOps)) (q : Cell PidOps)
    → find_first c ps ≡ some q
    → c q ≡ true
unfolding find_first
find_first-holds c [] q e = cc
find_first-holds c (p ∷ ps) q e = ground (arith, find_first-holds c ps q)

module _ (f : PidOps → Bool) (d : Cell PidOps → Bool) (ops : PidOps) (q : Cell PidOps) where
  -- A search that found nothing finds the process that was written, where it looks for that.
  pub find_first-written :
      (ps : List (Cell PidOps))
      → find_first (λ p. f p.name) ps ≡ none
      → find_first d ps ≡ some q
      → f ops ≡ true
      → (x : Cell PidOps) × (find_first (λ p. f p.name) (map (written q.addr ops) ps) ≡ some x)
        × (x.addr ≡ q.addr)
  unfolding find_first
  find_first-written [] none_yet found t = cc
  find_first-written (p ∷ ps) none_yet found t =
      let other : f p.name ≡ false = ground (arith, none_yet) in
      let none_later : find_first (λ p. f p.name) ps ≡ none = ground (arith, none_yet) in
      elim (Bool-cases (p.addr == q.addr)) [
        | inl same ↦ (
          record p { node = record (p.node) { name = ops } },
          rw same (rw t refl),
          (==_iff p.addr q.addr).0 same,
        )
        | inr apart ↦
            (let found_later : find_first d ps ≡ some q = ground (arith, found) in
              let (x, e, a) = find_first-written ps none_later found_later t in
              (x, rw apart (rw other e), a))
      ]

  pub find_first-unwritten :
      (ps : List (Cell PidOps))
      → find_first (λ p. f p.name) ps ≡ none
      → f ops ≡ false
      → find_first (λ p. f p.name) (map (written q.addr ops) ps) ≡ none
  unfolding find_first
  find_first-unwritten [] none_yet t = refl
  find_first-unwritten (p ∷ ps) none_yet t =
      let other : f p.name ≡ false = ground (arith, none_yet) in
      let none_later : find_first (λ p. f p.name) ps ≡ none = ground (arith, none_yet) in
      elim (Bool-cases (p.addr == q.addr)) [
        | inl same ↦ rw same (rw t (find_first-unwritten ps none_later t))
        | inr apart ↦ rw apart (rw other (find_first-unwritten ps none_later t))
      ]
