-- ===== src/Examples/KeysUsed.antt =====
-- The laws of the message keys at a cache with a hole.
use aiotc.Prelude.{ℤ, refl, List, [], ◌∷◌, pos, minus_one, arith}
use aiotc.Cstring.{codes}
use aiotc.Keys.{MsgKeys, get_msg_key}
use aiotc.Keys.Store.{zeros}
use aiotc.Keys.Fresh.{IsKeyCache, Gets, get_msg_key-Gets}
use aiotc.Keys.Runs.{Call, gets, dels, run, run-IsKeyCache}

abbrev keys_of : List ℤ → MsgKeys
keys_of ks = record { key_cache = ks; rest_msg_key = pos 0; work_msg_key = pos 0 }

abbrev one_hole : MsgKeys
one_hole = keys_of (pos 101 ∷ minus_one ∷ pos 103 ∷ pos 0 ∷ [])

abbrev one_hole-IsKeyCache : IsKeyCache 100 4 one_hole.key_cache
one_hole-IsKeyCache = (
  pos 101 ∷ minus_one ∷ pos 103 ∷ [],
  record { spare = 0; shape = refl; size = refl; keys = refl; once = refl },
)

get_msg_key-Gets_example : Gets 100 4 one_hole (get_msg_key 100 4 (codes "rest") one_hole)
get_msg_key-Gets_example = get_msg_key-Gets 100 4 (codes "rest") one_hole one_hole-IsKeyCache

abbrev calls : List (Call 100 4)
calls =
    gets (codes "rest")
    ∷ gets (codes "work")
    ∷ dels 101 (omega arith)
    ∷ gets (codes "obj")
    ∷ gets (codes "obj")
    ∷ gets (codes "obj")
    ∷ []

run-IsKeyCache_example : IsKeyCache 100 4 (run 100 4 calls (keys_of (zeros 4))).key_cache
run-IsKeyCache_example = run-IsKeyCache 100 4 3 calls (keys_of (zeros 4)) refl refl
