-- ===== src/Examples/Chains.antt =====
-- The laws of the queue's pointers, of the sockets and of the master's threads at concrete inputs.
use aiotc.Prelude.{
  ℕ, suc, not, sym, ap, ◌≤◌, ◌≡◌, ◌↔◌, Bool, true, false, none, List, [], ◌∷◌, arith, take, ltb,
  ◌==◌, if◌then◌else◌, length, length-take,
}
use aiotc.Cstring.{Text, codes}
use aiotc.Queue.{Node, empty}
use aiotc.Queue.Length.{Op, put, get, clear, del, del_by_user}
use aiotc.Queue.Length as Lists
use aiotc.Queue.Chain.{Heap}
use aiotc.Queue.Chain.Runs.{Reaches, run, cleared, run-Reaches}
use aiotc.Sockets.{
  Net, timeout, ready, Received, recv_error, received, Sent, broken, send_error, sent, drop,
  block_recv, block_send,
}
use aiotc.Sockets.Ends.{Ends, block_recv-Ends, block_send-Ends}
use aiotc.Master.Locks.{
  detaches, chooses, System, Step, poll, polled, silent, start_managing, no_slave, Reach, start,
  later,
}
use aiotc.Master.Deadlock.{IsCrossed, reach-stuck}
use aiotc.Examples.Setup.{small_pool}

abbrev item : ℕ → Node ℕ
item n = record { name = n; val = 0; arg = none }

abbrev no_memory : Heap ℕ
no_memory a = none

abbrev calls : List (Op ℕ)
calls =
    put (item 5)
    ∷ put (item 6)
    ∷ put (item 7)
    ∷ del (λ c. c.name == 6)
    ∷ del_by_user (λ c. c.name == 7)
    ∷ put (item 8)
    ∷ get
    ∷ put (item 9)
    ∷ clear
    ∷ put (item 10)
    ∷ []

run-Reaches_example :
    Reaches small_pool 3
      (run small_pool 3 calls ([], cleared no_memory))
      (Lists.run small_pool 3 calls ([], empty))
run-Reaches_example = run-Reaches small_pool 3 calls [] no_memory

-- A socket that is ready in every other round, and moves at most three bytes at a time; the world is
-- whether it is ready and the bytes that are still to come.
abbrev at_most_3 : ℕ → Text → Text
at_most_3 n bytes = take (if ltb n 3 then n else 3) bytes

abbrev stored : Received → Text
stored recv_error = []
stored (received bytes) = bytes

at_most_3-fits :
    (n : ℕ) (rest bytes : Text) → received (at_most_3 n rest) ≡ received bytes → length bytes ≤ n
at_most_3-fits n rest bytes e =
    let e' : at_most_3 n rest ≡ bytes = ap stored e in
    rw (sym e') (ground (arith, length-take (if ltb n 3 then n else 3) rest))

abbrev one_byte : Text → Sent
one_byte [] = broken
one_byte (b ∷ bs) = sent 0

abbrev taken : Sent → ℕ
taken broken = 0
taken send_error = 0
taken (sent k) = suc k

one_byte-fits : (src : Text) (k : ℕ) → one_byte src ≡ sent k → suc k ≤ length src
one_byte-fits [] k e = absurd (omega (arith, ap taken e))
one_byte-fits (b ∷ bs) k e = omega (arith, ap taken e)

abbrev slow_net : Net
slow_net = record {
  World = Bool × Text;
  select = λ w. ((if w.0 then ready else timeout), (not w.0, w.1));
  recv = λ w n. (received (at_most_3 n w.1), (w.0, drop 3 w.1));
  send = λ w src. (one_byte src, w);
  callback = λ w. (false, w);
  recv_le = λ w n bytes e. at_most_3-fits n w.1 bytes e;
  send_le = λ w src k e. one_byte-fits src k e;
}

block_recv-Ends_example : Ends slow_net 5 (block_recv slow_net 9 true 5 4 (false, codes "frames"))
block_recv-Ends_example =
    block_recv-Ends slow_net true 5 9 4 (false, codes "frames") (omega arith) (omega arith)

block_send-Ends_example : Ends slow_net 5 (block_send slow_net 11 (codes "frame") 6 (false, []))
block_send-Ends_example =
    block_send-Ends slow_net (codes "frame") 11 6 (false, []) (omega arith) (omega arith)

-- The two threads, each with its semaphore, and each waiting for the other's: the slaves are polled
-- once, the manager starts on the objects while a second poll runs, a slave is silent, and an object
-- has no slave.
abbrev crossed : System
crossed = record {
  slave_load = detaches;
  manager = chooses;
  mutex_slave = 0;
  mutex_mobj = 0;
  slave_load_ok = true;
}

crossed_reached : Reach crossed
crossed_reached =
    later (later (later (later (later (later start poll) polled) poll) start_managing) silent)
      no_slave

reach-stuck_example : ((t : System) → Step crossed t → ⊥) ↔ IsCrossed crossed
reach-stuck_example = reach-stuck crossed crossed_reached
