-- ===== src/Messages.antt =====
-- The messages between processes (src/msg.cpp): msgSend, the flag by which it waits for an answer, and
-- the thread that takes a process's messages, hands them to the commands and answers. The calls msgget,
-- msgsnd and msgrcv, the heap and the time at which a flag is set are parameters. A key and the address
-- of a flag are numbers, of which the code only tests whether they are 0.
pub mod Sends
pub mod Answers
pub mod Trip
use aiotc.Prelude.{
  ℕ, zero, suc, ◌-◌, ◌*◌, Bool, true, false, not, ◌&&◌, Option, none, some, List, [], ◌∷◌, ◌++◌, ℤ,
  pos, negsuc, minus_one, eq_ℤ, ◌==◌, if◌then◌else◌,
}
use aiotc.Cstring.{Text, codes, strncpy, strncmp_eq}
use aiotc.Json.{Host, str_at}

abbrev pub msg_buf_len : ℕ
msg_buf_len = 256

-- msgBufParams without its type, which is 1 in every message.
pub record MsgBuf : Type 0 where
  pub key : ℕ
  pub ptr : ℕ
  pub buf : Text

-- What `msgsnd` says: 0, the error EAGAIN, or another error.
pub data SndAnswer : Type 0 where
  sent again refused : SndAnswer

-- The loop of msgSend over `msgsnd`, from its call number `i` on, where `attemp_num` says how often it
-- goes on: whether the message is sent, and the number of calls.
unfoldable pub attemp_loop : (attemp_num : ℕ) → (ℕ → SndAnswer) → (i : ℕ) → Bool × ℕ
attemp_loop zero answer i = elim (answer i) [
  | sent ↦ (true, suc i)
  | again ↦ (false, suc i)
  | refused ↦ (false, suc i)
]
attemp_loop (suc attemp_num) answer i =
    let rest = attemp_loop attemp_num answer (suc i) in
    elim (answer i) [ sent ↦ (true, suc i) | again ↦ rest | refused ↦ (false, suc i) ]

-- The loop of msgSend over the flag, which `flag i` says to be set when it is looked at for the time
-- number `i`: whether it saw the flag set, and how often it looked.
unfoldable pub wait_loop : (wait : ℕ) → (ℕ → Bool) → (i : ℕ) → Bool × ℕ
wait_loop zero flag i = (flag i, suc i)
wait_loop (suc wait) flag i =
    let rest = wait_loop wait flag (suc i) in if flag i then (true, suc i) else rest

-- How a call of msgSend ends: what it returns, the message that `msgsnd` took, the calls of `msgsnd`,
-- whether it saw its flag set, the looks at the flag, and the flag that it frees.
pub record Sending : Type 0 where
  pub ret : ℤ
  pub posted : Option MsgBuf
  pub calls : ℕ
  pub is_acked : Bool
  pub looks : ℕ
  pub freed : Option ℕ

abbrev pub not_sent : Sending
not_sent = record {
  ret = minus_one;
  posted = none;
  calls = 0;
  is_acked = false;
  looks = 0;
  freed = none;
}

-- The message that msgSend makes, with the address of its flag or 0.
abbrev pub message : Text → (recv_key : ℕ) → (ack : ℕ) → MsgBuf
message buf recv_key ack = record { key = recv_key; ptr = ack; buf = strncpy (msg_buf_len - 1) buf }

-- msgSend. `has_queue` says whether `msgget` gives a queue, `block` is what `malloc` gives.
unfoldable pub msg_send :
    (has_queue : Bool)
    → (block : Option ℕ) → (ℕ → SndAnswer)
    → (ℕ → Bool)
    → Text
    → (recv_key : ℕ) → (recv_timeout : ℕ) → Sending
unfolding attemp_loop wait_loop
msg_send has_queue block answer flag buf recv_key recv_timeout =
    let out = attemp_loop 3 answer 0 in
    let seen = wait_loop (recv_timeout * 10) flag 0 in
    if not has_queue
    then not_sent
    else if recv_key == 0
    then record {
      ret = pos 0;
      posted = (if out.0 then some (message buf recv_key 0) else none);
      calls = out.1;
      is_acked = false;
      looks = 0;
      freed = none;
    }
    else elim block [
      | none ↦ not_sent
      | some ack ↦ record {
        ret = pos 0;
        posted = (if out.0 then some (message buf recv_key ack) else none);
        calls = out.1;
        is_acked = seen.0;
        looks = seen.1;
        freed = some ack;
      }
    ]

-- What `msgrcv` finds of a message that `msgsnd` took: both are given MSG_BUF_LEN as the number of
-- bytes after the type, of which the key with its padding and the pointer take 16. The bytes of
-- `buf` behind that stay as `memset` left them.
unfoldable pub carry : MsgBuf → MsgBuf
carry m = record { key = m.key; ptr = m.ptr; buf = strncpy (msg_buf_len - 16) m.buf }

-- What the thread does that others see: it calls the function of a command, by its index in the table;
-- calls msgSendAck with a key and a flag; or sets a flag.
pub data Event : Type 0 where
  called : ℕ → Text → Event
  replied : (key ptr : ℕ) → Event
  wrote : ℕ → Event

-- Where the loop of msgTask over the table of commands stops.
pub data Dispatch : Type 0 where
  runs : ℕ → Dispatch
  unsupported : Dispatch
  past_table : Dispatch

-- The loop of msgTask, from the index `i` on. A table without its last entry "null" is read past its
-- end.
unfoldable pub find_command : List Text → (cmd : Text) → (i : ℕ) → Dispatch
unfolding strncmp_eq
find_command [] cmd i = past_table
find_command (name ∷ names) cmd i =
    let rest = find_command names cmd (suc i) in
    if strncmp_eq 64 name (codes "null")
    then unsupported
    else if strncmp_eq 64 name cmd
    then runs i
    else rest

-- What msgTask does for one outcome of its loop; `none` is a read past the table.
abbrev dispatched : Text → Dispatch → Option (List Event × ℤ)
dispatched buf (runs i) = some (called i buf ∷ [], pos 0)
dispatched buf unsupported = some ([], pos 0)
dispatched buf past_table = none

-- msgTask, with what it returns.
unfoldable pub msg_task : Host → List Text → Text → Option (List Event × ℤ)
unfolding find_command
msg_task h names buf = elim (str_at h buf "cmd") [
  | none ↦ some ([], minus_one)
  | some cmd ↦ dispatched buf (find_command names cmd 0)
]

-- What `msgrcv` says: the errors EINTR and EIDRM, another error, or a message.
pub data RcvAnswer : Type 0 where
  interrupted removed failed : RcvAnswer
  received : MsgBuf → RcvAnswer

-- How the thread ends: `running` is cleared, a command asks for it, the process exits, or a table is
-- read past its end.
pub data Ending : Type 0 where
  stopped asked exited out_of_table : Ending

abbrev pub before : List Event → List Event × Ending → List Event × Ending
before es r = (es ++ r.0, r.1)

-- The call of msgSendAck.
abbrev pub send_ack : MsgBuf → List Event
send_ack m = if not (m.key == 0) then replied m.key m.ptr ∷ [] else []

-- A round of the loop of msgThread after msgTask, with the later rounds.
abbrev pub after_task :
    MsgBuf → Option (List Event × ℤ) → (rest : List Event × Ending) → List Event × Ending
after_task m none rest = ([], out_of_table)
after_task m (some (es, ret2)) rest =
    if eq_ℤ ret2 (negsuc 2) then (es ++ send_ack m, asked) else before es (before (send_ack m) rest)

-- A round of the loop of msgThread on a message, with the later rounds.
unfoldable pub handle_message :
    Host → List Text → MsgBuf → (rest : List Event × Ending) → List Event × Ending
unfolding msg_task
handle_message h names m rest =
    if not (m.ptr == 0) && (m.key == 0)
    then before (wrote m.ptr ∷ []) rest
    else after_task m (msg_task h names m.buf) rest

-- The loop of msgThread over what `msgrcv` says in each round, until `running` is found cleared.
unfoldable pub msg_thread : Host → List Text → List RcvAnswer → List Event × Ending
unfolding handle_message
msg_thread h names [] = ([], stopped)
msg_thread h names (interrupted ∷ rs) = msg_thread h names rs
msg_thread h names (removed ∷ rs) = ([], exited)
msg_thread h names (failed ∷ rs) = msg_thread h names rs
msg_thread h names (received m ∷ rs) = handle_message h names m (msg_thread h names rs)

-- The message of msgSendAck, which `memset` has cleared.
abbrev pub ack_message : (ptr : ℕ) → MsgBuf
ack_message ptr = record { key = 0; ptr = ptr; buf = [] }
