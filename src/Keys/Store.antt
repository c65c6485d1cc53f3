-- ===== src/Keys/Store.antt =====
-- The cells of the key cache (src/pids.cpp) when a key is stored or deleted.
use aiotc.Prelude.{
  ℕ, zero, suc, ◌+◌, ◌<◌, ◌≡◌, refl, ap, inl, inr, true, false, not, ◌&&◌, ◌||◌, none, some, List,
  [], ◌∷◌, ◌++◌, ℤ, pos, negsuc, minus_one, eq_ℤ, ◌==◌, if◌then◌else◌, is_some, length, arith, All,
  Bool-cases,
}
use aiotc.Keys.{set_key, drop_key}
use aiotc.Keys.Search.{holds_key, first_hole, IsStored}
use aiotc.Keys.Distinct.{is_key, all_keys, distinct}

abbrev pub zeros : ℕ → List ℤ
zeros zero = []
zeros (suc n) = pos 0 ∷ zeros n

-- The first hole takes the key.
unfoldable pub fill : ℤ → List ℤ → List ℤ
fill key [] = []
fill key (k ∷ ks) = if eq_ℤ k minus_one then key ∷ ks else k ∷ fill key ks

pub set_key-end :
    (us zs : List ℤ) (key : ℤ) → set_key (length us) key (us ++ pos 0 ∷ zs) ≡ (us ++ key ∷ []) ++ zs
unfolding set_key
set_key-end [] zs key = refl
set_key-end (u ∷ us) zs key = ap (◌∷◌ u) (set_key-end us zs key)

pub set_key-hole :
    (us zs : List ℤ) (key : ℤ) (j p : ℕ)
    → first_hole j us ≡ some p
    → (q : ℕ) × (p ≡ j + q) × (set_key q key (us ++ zs) ≡ fill key us ++ zs)
unfolding set_key fill
set_key-hole [] zs key j p e = absurd (ground arith)
set_key-hole (u ∷ us) zs key j p e = elim (Bool-cases (eq_ℤ u minus_one)) [
  | inl t ↦ (0, ground arith, ground arith)
  | inr f ↦
      let (q, at, set) = set_key-hole us zs key (j + 1) p (ground arith) in
      (suc q, ground arith, ground arith)
]

pub holds-fill :
    (k m j : ℕ) (us : List ℤ)
    → is_some (first_hole j us) ≡ true
    → holds_key m (fill (pos k) us) ≡ (k == m || holds_key m us)
unfolding fill
holds-fill k m j [] e = absurd (ground arith)
holds-fill k m j (pos u ∷ us) e = ground (arith, holds-fill k m (j + 1) us)
holds-fill k m j (negsuc u ∷ us) e = ground (arith, holds-fill k m (j + 1) us)

pub holds-end :
    (k m : ℕ) (us zs : List ℤ) → holds_key m (us ++ zs) ≡ (holds_key m us || holds_key m zs)
holds-end k m [] zs = refl
holds-end k m (u ∷ us) zs = ground (arith, holds-end k m us zs)

pub holds-zeros : (m n : ℕ) → 0 < m → holds_key m (zeros n) ≡ false
holds-zeros m zero lt = refl
holds-zeros m (suc n) lt = ground (arith, holds-zeros m n lt)

pub first_hole-none : (i j : ℕ) (us : List ℤ) → first_hole i us ≡ none → first_hole j us ≡ none
first_hole-none i j [] e = refl
first_hole-none i j (u ∷ us) e = ground (arith, first_hole-none (i + 1) (j + 1) us)

module _ (k : ℕ) where
  fill-fresh :
      (m : ℕ) (us : List ℤ)
      → holds_key m us ≡ false
      → (k == m) ≡ false
      → holds_key m (fill (pos k) us) ≡ false
  unfolding fill
  fill-fresh m [] h f = refl
  fill-fresh m (u ∷ us) h f = ground (arith, fill-fresh m us)

  pub distinct-fill :
      (us : List ℤ)
      → holds_key k us ≡ false
      → distinct us ≡ true
      → distinct (fill (pos k) us) ≡ true
  unfolding fill
  distinct-fill [] h d = refl
  distinct-fill (pos u ∷ us) h d = ground (arith, distinct-fill us, fill-fresh u us)
  distinct-fill (negsuc u ∷ us) h d = ground (arith, distinct-fill us)

  pub distinct-end :
      (us : List ℤ)
      → holds_key k us ≡ false
      → distinct us ≡ true
      → distinct (us ++ pos k ∷ []) ≡ true
  distinct-end [] h d = refl
  distinct-end (pos u ∷ us) h d =
      ground (arith, distinct-end us, holds-end k u us (pos k ∷ []), holds-end u u us (pos k ∷ []))
  distinct-end (negsuc u ∷ us) h d = ground (arith, distinct-end us)

  pub keys-fill :
      (a n : ℕ) (us : List ℤ)
      → is_key a n (pos k) ≡ true
      → all_keys a n us ≡ true
      → all_keys a n (fill (pos k) us) ≡ true
  unfolding fill
  keys-fill a n [] h d = refl
  keys-fill a n (u ∷ us) h d = ground (arith, keys-fill a n us)

  pub keys-end :
      (a n : ℕ) (us : List ℤ)
      → is_key a n (pos k) ≡ true
      → all_keys a n us ≡ true
      → all_keys a n (us ++ pos k ∷ []) ≡ true
  keys-end a n [] h d = ground arith
  keys-end a n (u ∷ us) h d = ground (arith, keys-end a n us)

  pub length-fill : (us : List ℤ) → length (fill (pos k) us) ≡ length us
  unfolding fill
  length-fill [] = refl
  length-fill (u ∷ us) = ground (arith, length-fill us)

-- The cell of the key becomes a hole.
unfoldable pub erase : ℕ → List ℤ → List ℤ
erase k [] = []
erase k (u ∷ us) = if eq_ℤ u (pos k) then minus_one ∷ us else u ∷ erase k us

module _ (k : ℕ) where
  pub drop_key-erase :
      (us zs : List ℤ)
      → 0 < k
      → All IsStored us
      → drop_key (pos k) (us ++ pos 0 ∷ zs) ≡ erase k us ++ pos 0 ∷ zs
  unfolding erase drop_key
  drop_key-erase [] zs lt all = ground arith
  drop_key-erase (u ∷ us) zs lt all = ground (arith, drop_key-erase us zs lt all.1)

  holds_erase-absent :
      (m : ℕ) (us : List ℤ) → holds_key m us ≡ false → holds_key m (erase k us) ≡ false
  unfolding erase
  holds_erase-absent m [] h = refl
  holds_erase-absent m (u ∷ us) h = ground (arith, holds_erase-absent m us)

  pub holds-erase :
      (m : ℕ) (us : List ℤ)
      → distinct us ≡ true
      → holds_key m (erase k us) ≡ (not (k == m) && holds_key m us)
  unfolding erase
  holds-erase m [] d = ground arith
  holds-erase m (pos u ∷ us) d = ground (arith, holds-erase m us)
  holds-erase m (negsuc u ∷ us) d = ground (arith, holds-erase m us)

  pub distinct-erase : (us : List ℤ) → distinct us ≡ true → distinct (erase k us) ≡ true
  unfolding erase
  distinct-erase [] d = refl
  distinct-erase (pos u ∷ us) d = ground (arith, distinct-erase us, holds_erase-absent u us)
  distinct-erase (negsuc u ∷ us) d = ground (arith, distinct-erase us)

  pub keys-erase :
      (a n : ℕ) (us : List ℤ) → all_keys a n us ≡ true → all_keys a n (erase k us) ≡ true
  unfolding erase
  keys-erase a n [] h = refl
  keys-erase a n (u ∷ us) h = ground (arith, keys-erase a n us)

  pub length-erase : (us : List ℤ) → length (erase k us) ≡ length us
  unfolding erase
  length-erase [] = refl
  length-erase (u ∷ us) = ground (arith, length-erase us)

pub keys-IsStored : (a n : ℕ) (us : List ℤ) → all_keys (a + 1) n us ≡ true → All IsStored us
keys-IsStored a n [] h = tt
keys-IsStored a n (pos u ∷ us) h = (ground arith, keys-IsStored a n us (ground arith))
keys-IsStored a n (negsuc u ∷ us) h = (refl, keys-IsStored a n us (ground arith))
