-- ===== src/Work.antt =====
-- The process that sends the messages out (src/work.cpp and src/mq.cpp): the queue of messages between
-- the callbacks that make them and output_thread, and the settings of the broker. The calls of the
-- RabbitMQ client (work/rabbitmq) are parameters, by what they answer.
pub mod Queued
pub mod Rounds
pub mod Copied
pub mod Output
pub mod Broker
use aiotc.Prelude.{
  ℕ, ◌+◌, ◌*◌, ◌/◌, Bool, true, false, Option, none, some, List, [], ◌∷◌, ◌++◌, ℤ, pos, minus_one,
  eq_ℤ, length, if◌then◌else◌,
}
use aiotc.Cstring.{Text, strncpy}
use aiotc.Json.{buffer_size}
use aiotc.Slab.{Ptr, Slab}
use aiotc.Queue.{Node, Cell, Queue, Put, put_to_shm_queue, get_from_queue, free_arg}
use aiotc.Shm.{write}

-- The shared memory's pool and contents, `pOutQueue`, and whether `mq_conn` is not NULL. The nodes of
-- the queue carry nothing but their `arg`.
pub record OutState (P : Type 0) : Type 0 where
  pub sp : P
  pub memory : Ptr → Text
  pub queue : Queue (Unit {0})
  pub conn : Bool

abbrev pub text_node : Ptr → Node (Unit {0})
text_node a = record { name = tt; val = 0; arg = some a }

-- What a round of output_thread does with the message that it took, where there was one: it is
-- published, the broker refuses it, or there is no connection and the message is dropped.
pub data Left : Type 0 where
  published refused dropped : Text → Left

abbrev pub text_of : Left → Text
text_of (published t) = t
text_of (refused t) = t
text_of (dropped t) = t

-- The bytes behind a node's `arg`.
abbrev pub json_of : (Ptr → Text) → Cell (Unit {0}) → Text
json_of memory p = elim p.arg [ none ↦ [] | some a ↦ memory a ]

module _ (s : Slab) where
  -- `if(ret != 0) shmFree(pShmParams->headsp, node.arg)`
  after_put : OutState s.Pool → Ptr → Put s.Pool (Unit {0}) → OutState s.Pool
  after_put st a r =
      if eq_ℤ r.ret (pos 0)
      then record st { sp = r.pool; queue = r.queue }
      else record st { sp = s.free r.pool a; queue = r.queue }

  -- copyToMqQueue
  unfoldable pub copy_to_mq_queue : Text → OutState s.Pool → ℤ × OutState s.Pool
  unfolding after_put
  copy_to_mq_queue json st =
      let got = s.malloc st.sp (buffer_size (length json)) in
      elim got.0 [
        | none ↦ (minus_one, record st { sp = got.1 })
        | some a ↦ (
          pos 0,
          after_put
              (record st { memory = write st.memory a (strncpy (buffer_size (length json)) json) })
              a (put_to_shm_queue s got.1 st.queue (text_node a) 1000),
        )
      ]

  -- sendMsg2Mq, where `amqp_basic_publish` takes the message or does not; then the connection is
  -- closed.
  abbrev pub send_msg2_mq : (takes : Bool) → Text → Left
  send_msg2_mq takes json = if takes then published json else refused json

  -- A round of the loop of output_thread. `takes` says whether `amqp_basic_publish` takes a message,
  -- `opens` whether mqOpen gives a connection.
  unfoldable pub output_round :
      (takes opens : Bool) → OutState s.Pool → Option Left × OutState s.Pool
  output_round takes opens st =
      let out = get_from_queue st.queue in
      elim out.taken [
        | none ↦ (none, record st { queue = out.queue })
        | some p ↦ (
          some (
              if st.conn
              then send_msg2_mq takes (json_of st.memory p)
              else dropped (json_of st.memory p)),
          record st {
            sp = s.free (free_arg s st.sp p.arg) p.addr;
            queue = out.queue;
            conn = if st.conn then takes else opens;
          },
        )
      ]
