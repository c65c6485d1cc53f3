-- ===== src/Keys/Distinct.antt =====
-- Lists of distinct keys in a range, for the key cache of src/pids.cpp.
use aiotc.Prelude.{
  ℕ, zero, suc, ◌+◌, ◌≤◌, ◌≡◌, refl, Bool, true, false, not, ◌&&◌, none, List, [], ◌∷◌, ℤ, pos,
  negsuc, eq_ℤ, ◌==◌, ltb, leb, if◌then◌else◌, length, arith,
}
use aiotc.Keys.Search.{holds_key, first_hole}

-- A stored cell: a hole, or a key of the range of `n` keys from `a`.
abbrev pub is_key : (a n : ℕ) → ℤ → Bool
is_key a n (pos k) = leb a k && ltb k (a + n)
is_key a n (negsuc k) = k == 0

abbrev pub all_keys : (a n : ℕ) → List ℤ → Bool
all_keys a n [] = true
all_keys a n (k ∷ ks) = is_key a n k && all_keys a n ks

-- No key stands twice.
abbrev pub distinct : List ℤ → Bool
distinct [] = true
distinct (pos k ∷ ks) = not (holds_key k ks) && distinct ks
distinct (negsuc k ∷ ks) = distinct ks

without : ℕ → List ℤ → List ℤ
without a [] = []
without a (k ∷ ks) = if eq_ℤ k (pos a) then without a ks else k ∷ without a ks

holds-without :
    (a k : ℕ) (ks : List ℤ) → holds_key k ks ≡ false → holds_key k (without a ks) ≡ false
unfolding without
holds-without a k [] h = refl
holds-without a k (x ∷ ks) h = ground (arith, holds-without a k ks)

distinct-without : (a : ℕ) (ks : List ℤ) → distinct ks ≡ true → distinct (without a ks) ≡ true
unfolding without
distinct-without a [] h = refl
distinct-without a (pos k ∷ ks) h = ground (arith, distinct-without a ks, holds-without a k ks)
distinct-without a (negsuc k ∷ ks) h = ground (arith, distinct-without a ks)

without-absent : (a : ℕ) (ks : List ℤ) → holds_key a ks ≡ false → without a ks ≡ ks
unfolding without
without-absent a [] h = refl
without-absent a (k ∷ ks) h = ground (arith, without-absent a ks)

length-without :
    (a : ℕ) (ks : List ℤ) → distinct ks ≡ true → length ks ≤ suc (length (without a ks))
unfolding without
length-without a [] h = omega arith
length-without a (pos k ∷ ks) h = ground (arith, length-without a ks, without-absent a ks)
length-without a (negsuc k ∷ ks) h = ground (arith, length-without a ks)

keys-without :
    (a n : ℕ) (ks : List ℤ)
    → all_keys a (suc n) ks ≡ true
    → all_keys (suc a) n (without a ks) ≡ true
unfolding without
keys-without a n [] h = refl
keys-without a n (pos k ∷ ks) h = ground (arith, keys-without a n ks)
keys-without a n (negsuc k ∷ ks) h = ground (arith, keys-without a n ks)

hole-without :
    (a j j' : ℕ) (ks : List ℤ) → first_hole j ks ≡ none → first_hole j' (without a ks) ≡ none
unfolding without
hole-without a j j' [] h = refl
hole-without a j j' (pos k ∷ ks) h =
    ground (arith, hole-without a (j + 1) j' ks, hole-without a (j + 1) (j' + 1) ks)
hole-without a j j' (negsuc k ∷ ks) h = ground (arith, hole-without a (j + 1) (j' + 1) ks)

-- At most `n` distinct keys are in a range of `n`.
pub distinct-length :
    (n a : ℕ) (ks : List ℤ)
    → all_keys a n ks ≡ true
    → distinct ks ≡ true
    → first_hole 0 ks ≡ none
    → length ks ≤ n
distinct-length zero a [] h d e = omega arith
distinct-length zero a (pos k ∷ ks) h d e = absurd (ground arith)
distinct-length zero a (negsuc k ∷ ks) h d e = absurd (ground arith)
distinct-length (suc n) a ks h d e = omega (
  arith,
  length-without a ks d,
  distinct-length n (suc a) (without a ks) (keys-without a n ks h) (distinct-without a ks d)
      (hole-without a 0 0 ks e),
)
