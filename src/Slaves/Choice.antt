-- ===== src/Slaves/Choice.antt =====
-- The walk of getLowestLoadSlave (src/master.cpp).
use aiotc.Prelude.{
  ◌≡◌, refl, ◌∙◌, Bool, true, false, not, ◌&&◌, Option, none, some, List, [], ◌∷◌, lt_ℤ, lt_ℤ_trans,
  lt_ℤ_irrefl, lt_ℤ_asym, lt_ℤ_below, ◌==◌, arith, All, ◌⊎◌, inl, inr, Bool-cases,
}
use aiotc.Queue.{Cell, Queue, visit, traverse_queue}
use aiotc.Slaves.{SlaveParam, slave_load_max, get_lowest_load_slave_cb, get_lowest_load_slave}

-- A slave that may be given an object.
abbrev pub is_eligible : SlaveParam → Bool
is_eligible p = not (p.online == 0) && p.system_init && lt_ℤ p.load slave_load_max

-- Whether a node stands in the list.
abbrev pub Among : Cell SlaveParam → List (Cell SlaveParam) → Type 0
Among c [] = ⊥
Among c (p ∷ ps) = (c ≡ p) ⊎ Among c ps

-- `c` is eligible, and no eligible slave of `ps` has a lower load.
abbrev pub IsLowest : Cell SlaveParam → List (Cell SlaveParam) → Type 0
IsLowest c ps =
    (is_eligible c.name ≡ true)
    × All (λ p. is_eligible p.name ≡ true → lt_ℤ p.name.load c.name.load ≡ false) ps

unfoldable walk : Option (Cell SlaveParam) → List (Cell SlaveParam) → Option (Cell SlaveParam)
walk best ps = (visit get_lowest_load_slave_cb best ps).0

is_better : Cell SlaveParam → Cell SlaveParam → Bool
is_better p best =
    lt_ℤ p.name.load best.name.load && (not (p.name.online == 0) && p.name.system_init)

walk_better :
    (best p : Cell SlaveParam) (ps : List (Cell SlaveParam))
    → is_better p best ≡ true
    → walk (some best) (p ∷ ps) ≡ walk (some p) ps
unfolding walk is_better visit get_lowest_load_slave_cb
walk_better best p ps h = rw h refl

walk_worse :
    (best p : Cell SlaveParam) (ps : List (Cell SlaveParam))
    → is_better p best ≡ false
    → walk (some best) (p ∷ ps) ≡ walk (some best) ps
unfolding walk is_better visit get_lowest_load_slave_cb
walk_worse best p ps h = rw h refl

better-is_eligible :
    (best p : Cell SlaveParam)
    → is_eligible best.name ≡ true
    → is_better p best ≡ true
    → (is_eligible p.name ≡ true) × (lt_ℤ p.name.load best.name.load ≡ true)
unfolding is_better
better-is_eligible best p ok b =
    ground (arith, lt_ℤ_below p.name.load best.name.load slave_load_max)

worse-lt_ℤ :
    (best p : Cell SlaveParam)
    → is_better p best ≡ false
    → is_eligible p.name ≡ true
    → lt_ℤ p.name.load best.name.load ≡ false
unfolding is_better
worse-lt_ℤ best p w e = ground arith

-- What a walk that starts at `best` makes of the rest of the table.
abbrev Improves : Cell SlaveParam → List (Cell SlaveParam) → Cell SlaveParam → Type 0
Improves best ps c =
    (walk (some best) ps ≡ some c)
    × ((c ≡ best) ⊎ Among c ps)
    × (lt_ℤ best.name.load c.name.load ≡ false)
    × IsLowest c ps

walk_some :
    (best : Cell SlaveParam) (ps : List (Cell SlaveParam))
    → is_eligible best.name ≡ true
    → (c : Cell SlaveParam) × Improves best ps c
unfolding walk visit
walk_some best [] ok = (best, (refl, inl refl, lt_ℤ_irrefl best.name.load, (ok, tt)))
walk_some best (p ∷ ps) ok = elim (Bool-cases (is_better p best)) [
  | inl b ↦
      let now = better-is_eligible best p ok b in
      let (c, (e, from, le, low)) = walk_some p ps now.0 in
      (
        c,
        (
          walk_better best p ps b ∙ e,
          inr from,
          lt_ℤ_trans c.name.load p.name.load best.name.load le
              (lt_ℤ_asym p.name.load best.name.load now.1),
          (low.0, (λ _. le, low.1)),
        ),
      )
  | inr w ↦
      let (c, (e, from, le, low)) = walk_some best ps ok in
      (
        c,
        (
          walk_worse best p ps w ∙ e,
          elim from [ inl same ↦ inl same | inr there ↦ inr (inr there) ],
          le,
          (
            low.0,
            (
              λ k. lt_ℤ_trans c.name.load best.name.load p.name.load le (worse-lt_ℤ best p w k),
              low.1,
            ),
          ),
        ),
      )
]

walk_first :
    (p : Cell SlaveParam) (ps : List (Cell SlaveParam))
    → is_eligible p.name ≡ true
    → walk none (p ∷ ps) ≡ walk (some p) ps
unfolding walk visit get_lowest_load_slave_cb
walk_first p ps ok = ground arith

walk_skip :
    (p : Cell SlaveParam) (ps : List (Cell SlaveParam))
    → is_eligible p.name ≡ false
    → walk none (p ∷ ps) ≡ walk none ps
unfolding walk visit get_lowest_load_slave_cb
walk_skip p ps f = ground arith

-- No slave of the table is eligible and none is chosen, or the chosen one is a node of the table
-- that is eligible and has the lowest load.
pub data Chooses (ps : List (Cell SlaveParam)) (out : Option (Cell SlaveParam)) : Type 0 where
  no_slave : All (λ p. is_eligible p.name ≡ false) ps → out ≡ none → Chooses ps out
  lowest : (c : Cell SlaveParam) → Among c ps → IsLowest c ps → out ≡ some c → Chooses ps out

skipped :
    (p : Cell SlaveParam) {ps : List (Cell SlaveParam)} {out : Option (Cell SlaveParam)}
    → is_eligible p.name ≡ false
    → Chooses ps out
    → Chooses (p ∷ ps) out
skipped p f (no_slave all e) = no_slave (f, all) e
skipped p f (lowest c from low e) =
    lowest c (inr from) (low.0, (λ k. absurd (ground arith), low.1)) e

walk-Chooses : (ps : List (Cell SlaveParam)) → Chooses ps (walk none ps)
unfolding walk visit
walk-Chooses [] = no_slave tt refl
walk-Chooses (p ∷ ps) = elim (Bool-cases (is_eligible p.name)) [
  | inl ok ↦
      let (c, (e, from, le, low)) = walk_some p ps ok in
      lowest c from (low.0, (λ _. le, low.1)) (walk_first p ps ok ∙ e)
  | inr f ↦ rw (walk_skip p ps f) (skipped p f (walk-Chooses ps))
]

-- getLowestLoadSlave chooses a slave of the table that is online, initialised and below the load
-- limit, such that no other such slave has a lower load, and it chooses none only where the table
-- has no such slave.
pub get_lowest_load_slave-Chooses :
    (slaves : Queue SlaveParam) → Chooses slaves.nodes (get_lowest_load_slave slaves)
unfolding get_lowest_load_slave traverse_queue walk
get_lowest_load_slave-Chooses slaves = walk-Chooses slaves.nodes
