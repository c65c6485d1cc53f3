-- ===== src/Keys/Search.antt =====
-- The two loops of getMsgKey (src/pids.cpp).
use aiotc.Prelude.{
  ℕ, zero, suc, ◌+◌, ◌≤◌, ◌<◌, ◌≡◌, refl, ap, ◌⊎◌, inl, inr, Bool, true, false, not, ◌&&◌, ◌||◌,
  Option, none, some, List, [], ◌∷◌, ◌++◌, ℤ, pos, minus_one, eq_ℤ, ◌==◌, if◌then◌else◌, is_some,
  length, arith, All, Bool-cases,
}
use aiotc.Keys.{scan, set_key, search_key, place_of}

-- Whether a key is stored.
abbrev pub holds_key : ℕ → List ℤ → Bool
holds_key i [] = false
holds_key i (k ∷ ks) = eq_ℤ k (pos i) || holds_key i ks

-- The first deleted key's cell, counted from `j`.
abbrev pub first_hole : ℕ → List ℤ → Option ℕ
first_hole j [] = none
first_hole j (k ∷ ks) = if eq_ℤ k minus_one then some j else first_hole (j + 1) ks

abbrev pub IsStored : ℤ → Type 0
IsStored k = eq_ℤ k (pos 0) ≡ false

module _ (zs : List ℤ) (i : ℕ) where
  scan-hit :
      (us : List ℤ) (hole : Option ℕ) (j : ℕ)
      → All IsStored us
      → holds_key i us ≡ true
      → (scan (pos i) hole j (us ++ pos 0 ∷ zs)).used ≡ true
  unfolding scan
  scan-hit [] hole j all h = ground arith
  scan-hit (k ∷ us) hole j all h = ground (
    arith,
    scan-hit us (if eq_ℤ k minus_one && not (is_some hole) then some j else hole) (j + 1) all.1,
  )

  scan-miss :
      (us : List ℤ) (hole : Option ℕ) (j : ℕ)
      → 0 < i
      → All IsStored us
      → holds_key i us ≡ false
      → ((scan (pos i) hole j (us ++ pos 0 ∷ zs)).used ≡ false)
        × ((scan (pos i) hole j (us ++ pos 0 ∷ zs)).at ≡ j + length us)
  unfolding scan
  scan-miss [] hole j lt all h = ground arith
  scan-miss (k ∷ us) hole j lt all h = ground (
    arith,
    scan-miss us (if eq_ℤ k minus_one && not (is_some hole) then some j else hole) (j + 1) lt all.1,
  )

  scan-some : (us : List ℤ) (p j : ℕ) → (scan (pos i) (some p) j us).hole ≡ some p
  unfolding scan
  scan-some [] p j = refl
  scan-some (k ∷ us) p j = ground (arith, scan-some us p (j + 1))

  scan_miss-none :
      (us : List ℤ) (j : ℕ)
      → All IsStored us
      → holds_key i us ≡ false
      → (scan (pos i) none j (us ++ pos 0 ∷ zs)).hole ≡ first_hole j us
  unfolding scan
  scan_miss-none [] j all h = ground arith
  scan_miss-none (k ∷ us) j all h =
      ground (arith, scan_miss-none us (j + 1) all.1, scan-some (us ++ pos 0 ∷ zs) j (j + 1))

  scan_hit-none :
      (us : List ℤ) (j : ℕ)
      → ((scan (pos i) none j (us ++ pos 0 ∷ zs)).hole ≡ none)
        ⊎ ((scan (pos i) none j (us ++ pos 0 ∷ zs)).hole ≡ first_hole j us)
  unfolding scan
  scan_hit-none [] j = inl (ground arith)
  scan_hit-none (k ∷ us) j =
      ground (arith, scan_hit-none us (j + 1), scan-some (us ++ pos 0 ∷ zs) j (j + 1))

abbrev IsHole : List ℤ → Option ℕ → Type 0
IsHole us hole = (hole ≡ none) ⊎ (hole ≡ first_hole 0 us)

-- The cell that the next key goes to: the first hole, or else the cell behind the stored ones.
abbrev pub cell_of : List ℤ → ℕ
cell_of us = elim (first_hole 0 us) [ none ↦ length us | some j ↦ j ]

module _ (us zs : List ℤ) where
  abbrev cells : List ℤ
  cells = us ++ pos 0 ∷ zs

  pub data Searches (i n : ℕ) (out : ℤ × List ℤ) : Type 0 where
    exhausted :
        ((k : ℕ) → i ≤ k → k < i + n → holds_key k us ≡ true)
        → out ≡ (minus_one, us ++ pos 0 ∷ zs)
        → Searches i n out
    granted :
        (k : ℕ)
        → i ≤ k
        → k < i + n
        → holds_key k us ≡ false
        → out ≡ (pos k, set_key (cell_of us) (pos k) (us ++ pos 0 ∷ zs))
        → Searches i n out

  scan-IsHole :
      (i : ℕ) (hole : Option ℕ) → IsHole us hole → IsHole us (scan (pos i) hole 0 cells).hole
  scan-IsHole i none h = scan_hit-none zs i us 0
  scan-IsHole i (some p) h = rw (scan-some zs i cells p 0) h

  scan-place :
      (i : ℕ) (hole : Option ℕ)
      → IsHole us hole
      → 0 < i
      → All IsStored us
      → holds_key i us ≡ false
      → place_of (scan (pos i) hole 0 cells) ≡ cell_of us
  scan-place i none h lt all f =
      ground (arith, scan_miss-none zs i us 0 all f, (scan-miss zs i us none 0 lt all f).1)
  scan-place i (some p) (inl e) lt all f = cc
  scan-place i (some p) (inr e) lt all f = ground (arith, scan-some zs i cells p 0)

  on :
      {i n : ℕ} {out : ℤ × List ℤ}
      → holds_key i us ≡ true
      → Searches (i + 1) n out
      → Searches i (suc n) out
  on {i} {n} h (exhausted all e) =
      exhausted
        (λ k le lt. elim (Bool-cases (i == k)) [
          | inl t ↦ ground arith
          | inr f ↦ all k (ground arith) (omega arith)
        ])
        e
  on h (granted k le lt f e) = granted k (omega arith) (omega arith) f e

  pub search_key-Searches :
      (n i : ℕ) (hole : Option ℕ)
      → IsHole us hole
      → 0 < i
      → All IsStored us
      → Searches i n (search_key n i hole cells)
  unfolding search_key
  search_key-Searches zero i hole h lt all = exhausted (λ k le l. absurd (omega arith)) refl
  search_key-Searches (suc n) i hole h lt all = elim (Bool-cases (holds_key i us)) [
    | inl t ↦
        rw (scan-hit zs i us hole 0 all t)
          (on t (search_key-Searches n (i + 1) _ (scan-IsHole i hole h) (omega arith) all))
    | inr f ↦ rw ((scan-miss zs i us hole 0 lt all f).0) (
        granted i (omega arith) (omega arith) f
          (ap (λ j. (pos i, set_key j (pos i) cells)) (scan-place i hole h lt all f)))
  ]
