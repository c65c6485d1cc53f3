-- ===== src/Keys.antt =====
-- The message keys of a slave's processes: getMsgKey, delMsgKey and setKey2System of src/pids.cpp.
-- `keyCache` is an array of `msgKeyMax` cells: 0 where no key was stored yet, -1 where one was
-- deleted. `msgKeyStart` is not negative, and the keys are below 2 ^ 31, where `int` is exact.
pub mod Search
pub mod Distinct
pub mod Store
pub mod Fresh
pub mod Runs
use aiotc.Prelude.{
  ℕ, zero, suc, ◌+◌, ◌-◌, Bool, true, false, not, ◌&&◌, ◌||◌, Option, none, some, List, [], ◌∷◌, ℤ,
  pos, minus_one, eq_ℤ, if◌then◌else◌, is_some,
}
use aiotc.Cstring.{Text, codes, strcmp_eq}

-- What the inner loop of getMsgKey leaves: `used`, its index `j`, and `empty`.
pub record Scanned : Type 0 where
  pub used : Bool
  pub at : ℕ
  pub hole : Option ℕ

-- The inner loop, at the cell `j`.
unfoldable pub scan : (i : ℤ) → (hole : Option ℕ) → (j : ℕ) → List ℤ → Scanned
scan i hole j [] = record { used = true; at = j; hole = hole }
scan i hole j (k ∷ ks) =
    let later =
      scan i (if eq_ℤ k minus_one && not (is_some hole) then some j else hole) (j + 1) ks in
    if eq_ℤ k i || eq_ℤ k (pos 0)
    then record { used = not (eq_ℤ k (pos 0)); at = j; hole = hole }
    else later

-- `keyCache[j] = key`
unfoldable pub set_key : ℕ → ℤ → List ℤ → List ℤ
set_key j key [] = []
set_key zero key (k ∷ ks) = key ∷ ks
set_key (suc j) key (k ∷ ks) = k ∷ set_key j key ks

abbrev pub place_of : Scanned → ℕ
place_of out = elim out.hole [ none ↦ out.at | some j ↦ j ]

-- The outer loop, with `n` rounds left at the key `i`.
unfoldable pub search_key : ℕ → ℕ → Option ℕ → List ℤ → ℤ × List ℤ
unfolding scan set_key
search_key zero i hole ks = (minus_one, ks)
search_key (suc n) i hole ks =
    let out = scan (pos i) hole 0 ks in
    let later = search_key n (i + 1) out.hole ks in
    if out.used then later else (pos i, set_key (place_of out) (pos i) ks)

-- The fields of slaveParams that hold keys.
pub record MsgKeys : Type 0 where
  pub key_cache : List ℤ
  pub rest_msg_key : ℤ
  pub work_msg_key : ℤ

-- setKey2System
unfoldable pub set_key2_system : ℤ → Text → MsgKeys → MsgKeys
set_key2_system key name keys =
    if strcmp_eq name (codes "rest")
    then record keys { rest_msg_key = key }
    else if strcmp_eq name (codes "work")
    then record keys { work_msg_key = key }
    else keys

-- getMsgKey
unfoldable pub get_msg_key : (start max : ℕ) → Text → MsgKeys → ℤ × MsgKeys
unfolding search_key set_key2_system
get_msg_key start max name keys =
    let out = search_key (max - 1) (start + 1) none keys.key_cache in
    let keys' = record keys { key_cache = out.1 } in
    if eq_ℤ out.0 minus_one then (minus_one, keys') else (out.0, set_key2_system out.0 name keys')

-- The loop of delMsgKey.
unfoldable pub drop_key : ℤ → List ℤ → List ℤ
drop_key key [] = []
drop_key key (k ∷ ks) =
    let later = drop_key key ks in
    if eq_ℤ k key || eq_ℤ k (pos 0) then (if eq_ℤ k key then minus_one else k) ∷ ks else k ∷ later

-- delMsgKey
unfoldable pub del_msg_key : ℤ → MsgKeys → MsgKeys
unfolding drop_key
del_msg_key key keys = record keys { key_cache = drop_key key keys.key_cache }
