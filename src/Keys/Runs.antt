-- ===== src/Keys/Runs.antt =====
-- Sequences of getMsgKey and delMsgKey (src/pids.cpp).
use aiotc.Prelude.{
  ℕ, suc, ◌+◌, ◌-◌, ◌<◌, ◌≡◌, refl, ap, ◌∙◌, not, ◌&&◌, List, [], ◌∷◌, ℤ, pos, ◌==◌, arith,
}
use aiotc.Cstring.{Text}
use aiotc.Keys.{MsgKeys, get_msg_key, drop_key, del_msg_key}
use aiotc.Keys.Search.{holds_key}
use aiotc.Keys.Store.{
  zeros, erase, drop_key-erase, holds-erase, distinct-erase, keys-erase, length-erase,
  keys-IsStored,
}
use aiotc.Keys.Fresh.{IsCache, IsKeyCache, none_left, got, get_msg_key-Gets, holds-cache}

module _ (start max : ℕ) where
  -- delMsgKey
  del-IsCache :
      (k : ℕ) (ks us : List ℤ)
      → 0 < k
      → IsCache start max ks us
      → IsCache start max (drop_key (pos k) ks) (erase k us)
  del-IsCache k ks us lt h = record {
    spare = h.spare;
    shape =
        ap (drop_key (pos k)) h.shape
        ∙ drop_key-erase k us (zeros h.spare) lt (keys-IsStored start (max - 1) us h.keys);
    size = omega (arith, length-erase k us, h.size);
    keys = keys-erase k (start + 1) (max - 1) us h.keys;
    once = distinct-erase k us h.once;
  }

  -- Where the cache is well formed, delMsgKey takes its key, which is positive, out of the keys in
  -- use, and no other.
  del_msg_key-holds :
      (k m : ℕ) (keys : MsgKeys)
      → 0 < k
      → 0 < m
      → IsKeyCache start max keys.key_cache
      → holds_key m (del_msg_key (pos k) keys).key_cache
        ≡ (not (k == m) && holds_key m keys.key_cache)
  unfolding del_msg_key
  del_msg_key-holds k m keys lt pm (us, h) =
      rw
        (
          holds-cache start max _ (erase k us) m (del-IsCache k keys.key_cache us lt h) pm,
          holds-cache start max keys.key_cache us m h pm,
        )
        (holds-erase k m us h.once)

  pub data Call : Type 0 where
    gets : Text → Call
    dels : (k : ℕ) → 0 < k → Call

  unfoldable pub run : List Call → MsgKeys → MsgKeys
  run [] keys = keys
  run (gets name ∷ cs) keys = run cs (get_msg_key start max name keys).1
  run (dels k lt ∷ cs) keys = run cs (del_msg_key (pos k) keys)

  get-IsKeyCache :
      (name : Text) (keys : MsgKeys)
      → IsKeyCache start max keys.key_cache
      → IsKeyCache start max (get_msg_key start max name keys).1.key_cache
  get-IsKeyCache name keys h = elim (get_msg_key-Gets start max name keys h) [
    | none_left all e ↦ rw e h
    | got k r f ret h' holds ↦ h'
  ]

  run_from-IsKeyCache :
      (cs : List Call) (keys : MsgKeys)
      → IsKeyCache start max keys.key_cache
      → IsKeyCache start max (run cs keys).key_cache
  unfolding run del_msg_key
  run_from-IsKeyCache [] keys h = h
  run_from-IsKeyCache (gets name ∷ cs) keys h =
      run_from-IsKeyCache cs _ (get-IsKeyCache name keys h)
  run_from-IsKeyCache (dels k lt ∷ cs) keys h =
      run_from-IsKeyCache cs _ (erase k h.0, del-IsCache k keys.key_cache h.0 lt h.1)

  -- A cache of one cell at least that starts cleared stays well formed through every sequence of
  -- getMsgKey and delMsgKey: its keys are distinct and of the range, and a cell that was never used
  -- is left behind them, without which getMsgKey would find no key at all.
  pub run-IsKeyCache :
      (n : ℕ) (cs : List Call) (keys : MsgKeys)
      → max ≡ suc n
      → keys.key_cache ≡ zeros max
      → IsKeyCache start max (run cs keys).key_cache
  run-IsKeyCache n cs keys size e = run_from-IsKeyCache cs keys (
    [],
    record { spare = n; shape = e ∙ ap zeros size; size = omega arith; keys = refl; once = refl },
  )
