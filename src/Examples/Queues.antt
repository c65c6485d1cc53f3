-- ===== src/Examples/Queues.antt =====
-- The laws of the queue at concrete queues.
use aiotc.Prelude.{ℕ, ◌+◌, ◌≡◌, refl, Bool, Option, none, some, List, [], ◌∷◌, ◌++◌, ◌==◌}
use aiotc.Slab.{Ptr}
use aiotc.Queue.{Node, Cell, Queue, empty, put_to_shm_queue}
use aiotc.Queue.Length.{
  Op, put, get, clear, del, del_by_user, IsCounted, run, run-IsCounted, drain, drain-put,
}
use aiotc.Queue.Users.{use_times, used, use_times-lifetime}
use aiotc.Examples.Setup.{small_pool}

abbrev node_of : ℕ → Option Ptr → Node ℕ
node_of n arg = record { name = n; val = 0; arg = arg }

abbrev first_cell : Cell ℕ
first_cell = record { addr = 10; node = node_of 5 (some 11) }

abbrev others : List (Cell ℕ)
others =
    record { addr = 12; node = node_of 6 none } ∷ record { addr = 13; node = node_of 5 none } ∷ []

abbrev three : Queue ℕ
three = record { nodes = first_cell ∷ others; use_max = 3; que_len = 3 }

abbrev is_named : ℕ → Cell ℕ → Bool
is_named n p = p.name == n

abbrev calls : List (Op ℕ)
calls =
    put (node_of 5 none)
    ∷ put (node_of 6 none)
    ∷ put (node_of 7 none)
    ∷ get
    ∷ del_by_user (is_named 6)
    ∷ put (node_of 8 none)
    ∷ del (is_named 8)
    ∷ clear
    ∷ put (node_of 9 none)
    ∷ []

run-IsCounted_example : IsCounted 2 (run small_pool 2 calls ([], empty)).1
run-IsCounted_example = run-IsCounted small_pool 2 calls []

drain-put_example :
    (a : Ptr) × (drain
        (three.que_len + 1)
        (put_to_shm_queue small_pool [] three (node_of 7 none) 4).queue
      ≡ drain three.que_len three ++ record { addr = a; node = node_of 7 none } ∷ [])
unfolding put_to_shm_queue
drain-put_example = drain-put small_pool [] three (node_of 7 none) 4 refl refl

use_times-lifetime_example :
    ((use_times (is_named 5) 2 three).nodes ≡ used (is_named 5) 2 first_cell ∷ others)
    × ((use_times (is_named 5) 3 three).nodes ≡ others)
use_times-lifetime_example =
    use_times-lifetime (is_named 5) (λ x. refl) 2 three first_cell others refl refl refl
