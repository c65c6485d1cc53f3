-- ===== src/Keys/Fresh.antt =====
-- The result of getMsgKey (src/pids.cpp) on a well-formed cache.
use aiotc.Prelude.{
  ℕ, zero, suc, ◌+◌, ◌-◌, ◌≤◌, ◌<◌, ◌≡◌, refl, sym, ap, ◌∙◌, inl, inr, true, false, ◌||◌, none,
  some, List, [], ◌∷◌, ◌++◌, ℤ, pos, minus_one, ◌==◌, length, length-append, arith, Option-cases,
}
use aiotc.Cstring.{Text}
use aiotc.Keys.{MsgKeys, set_key, search_key, get_msg_key, set_key2_system}
use aiotc.Keys.Search.{
  holds_key, first_hole, cell_of, Searches, exhausted, granted, search_key-Searches,
}
use aiotc.Keys.Distinct.{is_key, all_keys, distinct, distinct-length}
use aiotc.Keys.Store.{
  zeros, fill, set_key-end, set_key-hole, holds-fill, holds-end, holds-zeros, first_hole-none,
  distinct-fill, distinct-end, keys-fill, keys-end, length-fill, keys-IsStored,
}

-- The cache is `us` followed by cells that were never used, of which there is one at least, and `us`
-- has holes and distinct keys behind `start`.
pub record IsCache (start max : ℕ) (ks us : List ℤ) : Type 0 where
  pub spare : ℕ
  pub shape : ks ≡ us ++ zeros (suc spare)
  pub size : length us + suc spare ≡ max
  pub keys : all_keys (start + 1) (max - 1) us ≡ true
  pub once : distinct us ≡ true

-- What `us` is after the key `k` went to its cell.
stored : ℕ → List ℤ → List ℤ
stored k us = elim (first_hole 0 us) [ none ↦ us ++ pos k ∷ [] | some p ↦ fill (pos k) us ]

module _ (start max : ℕ) where
  module _ (k : ℕ) (us : List ℤ) where
    put_end :
        (n : ℕ)
        → first_hole 0 us ≡ none
        → length us + suc n ≡ max
        → all_keys (start + 1) (max - 1) us ≡ true
        → distinct us ≡ true
        → is_key (start + 1) (max - 1) (pos k) ≡ true
        → holds_key k us ≡ false
        → IsCache start max (set_key (length us) (pos k) (us ++ zeros (suc n))) (us ++ pos k ∷ [])
    put_end zero e size keys once r f = absurd (
        omega (
          arith,
          distinct-length (max - 1) (start + 1) (pos k ∷ us) (ground arith) (ground arith)
              (first_hole-none 0 1 us e),
        ))
    put_end (suc n) e size keys once r f = record {
      spare = n;
      shape = set_key-end us (zeros (suc n)) (pos k);
      size = omega (arith, length-append {0} us);
      keys = keys-end k (start + 1) (max - 1) us r keys;
      once = distinct-end k us f once;
    }

    put_hole :
        (n p : ℕ)
        → first_hole 0 us ≡ some p
        → length us + suc n ≡ max
        → all_keys (start + 1) (max - 1) us ≡ true
        → distinct us ≡ true
        → is_key (start + 1) (max - 1) (pos k) ≡ true
        → holds_key k us ≡ false
        → IsCache start max (set_key p (pos k) (us ++ zeros (suc n))) (fill (pos k) us)
    put_hole n p e size keys once r f =
        let (q, at, set) = set_key-hole us (zeros (suc n)) (pos k) 0 p e in
        record {
          spare = n;
          shape = ap (λ j. set_key j (pos k) (us ++ zeros (suc n))) (at ∙ omega arith) ∙ set;
          size = omega (arith, length-fill k us);
          keys = keys-fill k (start + 1) (max - 1) us r keys;
          once = distinct-fill k us f once;
        }

    put-IsCache :
        (ks : List ℤ)
        → IsCache start max ks us
        → is_key (start + 1) (max - 1) (pos k) ≡ true
        → holds_key k us ≡ false
        → IsCache start max (set_key (cell_of us) (pos k) ks) (stored k us)
    unfolding stored
    put-IsCache ks h r f = elim (Option-cases (first_hole 0 us)) [
      | inl e ↦ rw (h.shape, e, cell_of, stored) (put_end h.spare e h.size h.keys h.once r f)
      | inr (p, e) ↦
          rw (h.shape, e, cell_of, stored) (put_hole h.spare p e h.size h.keys h.once r f)
    ]

    holds-stored : (m : ℕ) → holds_key m (stored k us) ≡ (k == m || holds_key m us)
    unfolding stored
    holds-stored m = elim (Option-cases (first_hole 0 us)) [
      | inl e ↦ ground (arith, holds-end k m us (pos k ∷ []))
      | inr (p, e) ↦ ground (arith, holds-fill k m 0 us)
    ]

  pub holds-cache :
      (ks us : List ℤ) (m : ℕ) → IsCache start max ks us → 0 < m → holds_key m ks ≡ holds_key m us
  holds-cache ks us m h lt =
      rw (h.shape)
        (ground (arith, holds-end 0 m us (zeros (suc h.spare)), holds-zeros m (suc h.spare) lt))

  -- The cache of a slave: holes and distinct keys of the range, then cells never used.
  abbrev pub IsKeyCache : List ℤ → Type 0
  IsKeyCache ks = (us : List ℤ) × IsCache start max ks us

  -- The key `k` is one of those that getMsgKey may hand out.
  abbrev pub InRange : ℕ → Type 0
  InRange k = (start < k) × (k < start + max)

  -- Every key is stored, none is handed out and nothing changes; or the key is of the range, was not
  -- stored, and is stored now beside those that were.
  pub data Gets (keys : MsgKeys) (out : ℤ × MsgKeys) : Type 0 where
    none_left :
        ((k : ℕ) → InRange k → holds_key k keys.key_cache ≡ true)
        → out ≡ (minus_one, keys)
        → Gets keys out
    got :
        (k : ℕ)
        → InRange k
        → holds_key k keys.key_cache ≡ false
        → out.0 ≡ pos k
        → IsKeyCache out.1.key_cache
        → ((m : ℕ) → 0 < m → holds_key m out.1.key_cache ≡ (k == m || holds_key m keys.key_cache))
        → Gets keys out

  cache_of_system :
      (key : ℤ) (name : Text) (keys : MsgKeys)
      → (set_key2_system key name keys).key_cache ≡ keys.key_cache
  unfolding set_key2_system
  cache_of_system key name keys = ground arith

  get_msg_key-found :
      (name : Text) (keys : MsgKeys) (k : ℕ) (ks : List ℤ)
      → search_key (max - 1) (start + 1) none keys.key_cache ≡ (pos k, ks)
      → ((get_msg_key start max name keys).0 ≡ pos k)
        × ((get_msg_key start max name keys).1.key_cache ≡ ks)
  unfolding get_msg_key
  get_msg_key-found name keys k ks e = (
    rw (e, get_msg_key) refl,
    rw (e, get_msg_key) (cache_of_system (pos k) name (record keys { key_cache = ks })),
  )

  granted-Gets :
      (name : Text) (keys : MsgKeys) (us : List ℤ) (h : IsCache start max keys.key_cache us) (k : ℕ)
      → start + 1 ≤ k
      → k < start + 1 + (max - 1)
      → holds_key k us ≡ false
      → search_key (max - 1) (start + 1) none keys.key_cache
        ≡ (pos k, set_key (cell_of us) (pos k) keys.key_cache)
      → Gets keys (get_msg_key start max name keys)
  granted-Gets name keys us h k le lt f e =
      let (ret, cache) = get_msg_key-found name keys k _ e in
      let h' = put-IsCache k us keys.key_cache h (ground arith) f in
      got k (omega arith, omega (arith, h.size))
        (holds-cache keys.key_cache us k h (omega arith) ∙ f) ret (stored k us, rw cache h')
        (λ m pm.
          rw (cache, holds-cache _ (stored k us) m h' pm, holds-cache keys.key_cache us m h pm)
            (holds-stored k us m))

  -- Where the cache is well formed, getMsgKey fails only if every key of the range is in use, and
  -- changes nothing then; else it hands out a key of the range that was not in use, and the keys in
  -- use are that key and those before.
  pub get_msg_key-Gets :
      (name : Text) (keys : MsgKeys)
      → IsKeyCache keys.key_cache
      → Gets keys (get_msg_key start max name keys)
  unfolding get_msg_key
  get_msg_key-Gets name keys (us, h) =
      let found : Searches us (zeros h.spare) (start + 1) (max - 1)
          (search_key (max - 1) (start + 1) none keys.key_cache) =
        rw (h.shape) (
          search_key-Searches us (zeros h.spare) (max - 1) (start + 1) none (inl refl) (omega arith)
            (keys-IsStored start (max - 1) us h.keys)) in
      elim found [
        | exhausted all e ↦
            none_left
              (λ k r.
                holds-cache keys.key_cache us k h (omega (arith, r.0))
                ∙ all k (omega (arith, r.0)) (omega (arith, r.0, r.1, h.size)))
              (rw (e, sym h.shape) refl)
        | granted k le lt f e ↦
            granted-Gets name keys us h k le lt f
              (e ∙ ap (λ c. (pos k, set_key (cell_of us) (pos k) c)) (sym h.shape))
      ]
