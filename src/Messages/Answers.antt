-- ===== src/Messages/Answers.antt =====
-- What the thread that takes a process's messages (msgThread of src/msg.cpp) answers.
use aiotc.Prelude.{
  ℕ, suc, ◌≡◌, ◌⊎◌, inl, inr, refl, ap, ◌∙◌, Bool, true, false, not, ◌&&◌, ◌||◌, some, List, [],
  ◌∷◌, ◌++◌, ℤ, pos, minus_one, negsuc, eq_ℤ, arith, ◌==◌, if◌then◌else◌, Bool-cases, Option-cases,
}
use aiotc.Cstring.{Text, codes, strncmp_eq}
use aiotc.Json.{Host, str_at}
use aiotc.Messages.{
  MsgBuf, Event, called, replied, wrote, Dispatch, runs, unsupported, find_command, msg_task,
  RcvAnswer, interrupted, removed, failed, received, Ending, stopped, exited, send_ack, after_task,
  handle_message, msg_thread,
}

-- The calls of msgSendAck, and the flags set, in order.
abbrev pub replies_of : List Event → List (ℕ × ℕ)
replies_of [] = []
replies_of (called i buf ∷ es) = replies_of es
replies_of (replied key ptr ∷ es) = (key, ptr) ∷ replies_of es
replies_of (wrote ptr ∷ es) = replies_of es

abbrev pub flags_of : List Event → List ℕ
flags_of [] = []
flags_of (called i buf ∷ es) = flags_of es
flags_of (replied key ptr ∷ es) = flags_of es
flags_of (wrote ptr ∷ es) = ptr ∷ flags_of es

-- The messages that come before the queue is removed.
abbrev pub taken : List RcvAnswer → List MsgBuf
taken [] = []
taken (interrupted ∷ rs) = taken rs
taken (removed ∷ rs) = []
taken (failed ∷ rs) = taken rs
taken (received m ∷ rs) = m ∷ taken rs

abbrev pub is_removed : List RcvAnswer → Bool
is_removed [] = false
is_removed (interrupted ∷ rs) = is_removed rs
is_removed (removed ∷ rs) = true
is_removed (failed ∷ rs) = is_removed rs
is_removed (received m ∷ rs) = is_removed rs

-- The requests that want an answer: the key to answer to, and the flag of the sender.
abbrev pub requests : List MsgBuf → List (ℕ × ℕ)
requests [] = []
requests (m ∷ ms) = if m.key == 0 then requests ms else (m.key, m.ptr) ∷ requests ms

-- The flags of the answers.
abbrev pub answers : List MsgBuf → List ℕ
answers [] = []
answers (m ∷ ms) =
    if m.key == 0 then (if m.ptr == 0 then answers ms else m.ptr ∷ answers ms) else answers ms

-- Whether a table has the entry "null" that ends it.
abbrev pub has_end : List Text → Bool
has_end [] = false
has_end (name ∷ names) = strncmp_eq 64 name (codes "null") || has_end names

abbrev Stops : Dispatch → Type 0
Stops d = (d ≡ unsupported) ⊎ ((k : ℕ) × (d ≡ runs k))

choose-Stops :
    (null hit : Bool) (rest : Dispatch) (i : ℕ)
    → (null ≡ false → Stops rest)
    → Stops (if null then unsupported else if hit then runs i else rest)
choose-Stops true hit rest i h = inl refl
choose-Stops false true rest i h = inr (i, refl)
choose-Stops false false rest i h = h refl

find_command-Stops :
    (names : List Text) (cmd : Text) (i : ℕ)
    → has_end names ≡ true
    → Stops (find_command names cmd i)
unfolding find_command
find_command-Stops [] cmd i e = cc
find_command-Stops (name ∷ names) cmd i e =
    choose-Stops (strncmp_eq 64 name (codes "null")) (strncmp_eq 64 name cmd)
      (find_command names cmd (suc i)) i
      (λ null. find_command-Stops names cmd (suc i) (ground (arith, e, null)))

-- What msgTask does besides calling a command's function: nothing that others see.
record IsQuiet (o : List Event × ℤ) : Type 0 where
  no_reply : replies_of o.0 ≡ []
  no_flag : flags_of o.0 ≡ []
  goes_on : eq_ℤ o.1 (negsuc 2) ≡ false

msg_task-IsQuiet :
    (h : Host) (names : List Text) (buf : Text)
    → has_end names ≡ true
    → (o : List Event × ℤ) × (msg_task h names buf ≡ some o) × IsQuiet o
unfolding msg_task
msg_task-IsQuiet h names buf e = elim (Option-cases (str_at h buf "cmd")) [
  | inl silent ↦ (
    ([], minus_one),
    rw (silent, msg_task) refl,
    record { no_reply = refl; no_flag = refl; goes_on = refl },
  )
  | inr (cmd, is) ↦ elim (find_command-Stops names cmd 0 e) [
    | inl none_such ↦ (
      ([], pos 0),
      rw (is, msg_task) (rw none_such refl),
      record { no_reply = refl; no_flag = refl; goes_on = refl },
    )
    | inr (k, hit) ↦ (
      (called k buf ∷ [], pos 0),
      rw (is, msg_task) (rw hit refl),
      record { no_reply = refl; no_flag = refl; goes_on = refl },
    )
  ]
]

replies_of-append : (xs ys : List Event) → replies_of (xs ++ ys) ≡ replies_of xs ++ replies_of ys
replies_of-append [] ys = refl
replies_of-append (called i buf ∷ xs) ys = replies_of-append xs ys
replies_of-append (replied key ptr ∷ xs) ys = ap (λ r. (key, ptr) ∷ r) (replies_of-append xs ys)
replies_of-append (wrote ptr ∷ xs) ys = replies_of-append xs ys

flags_of-append : (xs ys : List Event) → flags_of (xs ++ ys) ≡ flags_of xs ++ flags_of ys
flags_of-append [] ys = refl
flags_of-append (called i buf ∷ xs) ys = flags_of-append xs ys
flags_of-append (replied key ptr ∷ xs) ys = flags_of-append xs ys
flags_of-append (wrote ptr ∷ xs) ys = ap (λ r. ptr ∷ r) (flags_of-append xs ys)

-- What the thread did, of what `msgrcv` said.
pub record Answers (rs : List RcvAnswer) (o : List Event × Ending) : Type 0 where
  pub replies : replies_of o.0 ≡ requests (taken rs)
  pub flags : flags_of o.0 ≡ answers (taken rs)
  pub ends : o.1 ≡ (if is_removed rs then exited else stopped)

ack-replies :
    (k : Bool) (key ptr : ℕ) (es : List Event) (r : List (ℕ × ℕ))
    → replies_of es ≡ r
    → replies_of ((if not k then replied key ptr ∷ [] else []) ++ es)
      ≡ (if k then r else (key, ptr) ∷ r)
ack-replies true key ptr es r e = e
ack-replies false key ptr es r e = ap (λ x. (key, ptr) ∷ x) e

ack-flags :
    (k p : Bool) (key ptr : ℕ) (es : List Event) (r : List ℕ)
    → not p && k ≡ false
    → flags_of es ≡ r
    → flags_of ((if not k then replied key ptr ∷ [] else []) ++ es)
      ≡ (if k then (if p then r else ptr ∷ r) else r)
ack-flags true true key ptr es r c e = e
ack-flags true false key ptr es r c e = cc
ack-flags false p key ptr es r c e = e

wrote-replies :
    (k p : Bool) (key ptr : ℕ) (r : List (ℕ × ℕ))
    → not p && k ≡ true
    → r ≡ (if k then r else (key, ptr) ∷ r)
wrote-replies true p key ptr r c = refl
wrote-replies false p key ptr r c = ground (arith, c)

wrote-flags :
    (k p : Bool) (ptr : ℕ) (es : List Event) (r : List ℕ)
    → not p && k ≡ true
    → flags_of es ≡ r
    → flags_of (wrote ptr ∷ es) ≡ (if k then (if p then r else ptr ∷ r) else r)
wrote-flags true true ptr es r c e = cc
wrote-flags true false ptr es r c e = ap (λ x. ptr ∷ x) e
wrote-flags false p ptr es r c e = ground (arith, c)

after_task-Answers :
    (m : MsgBuf) (o : List Event × ℤ) (rest : List Event × Ending) (rs : List RcvAnswer)
    → not (m.ptr == 0) && (m.key == 0) ≡ false
    → IsQuiet o
    → Answers rs rest
    → Answers (received m ∷ rs) (after_task m (some o) rest)
after_task-Answers m (es, r) rest rs e q h = rw q.goes_on record {
  replies =
      replies_of-append es (send_ack m ++ rest.0)
      ∙ ap (λ x. x ++ replies_of (send_ack m ++ rest.0)) q.no_reply
      ∙ ack-replies (m.key == 0) m.key m.ptr rest.0 (requests (taken rs)) h.replies;
  flags =
      flags_of-append es (send_ack m ++ rest.0)
      ∙ ap (λ x. x ++ flags_of (send_ack m ++ rest.0)) q.no_flag
      ∙ ack-flags (m.key == 0) (m.ptr == 0) m.key m.ptr rest.0 (answers (taken rs)) e h.flags;
  ends = h.ends;
}

handle_message-Answers :
    (h : Host) (names : List Text) (m : MsgBuf) (rest : List Event × Ending) (rs : List RcvAnswer)
    → has_end names ≡ true
    → Answers rs rest
    → Answers (received m ∷ rs) (handle_message h names m rest)
unfolding handle_message
handle_message-Answers h names m rest rs e prev =
    elim (Bool-cases (not (m.ptr == 0) && (m.key == 0))) [
      | inl ack ↦
          rw (ack, handle_message)
            record {
              replies =
                  prev.replies
                  ∙ wrote-replies (m.key == 0) (m.ptr == 0) m.key m.ptr (requests (taken rs)) ack;
              flags =
                  wrote-flags (m.key == 0) (m.ptr == 0) m.ptr rest.0 (answers (taken rs)) ack
                    prev.flags;
              ends = prev.ends;
            }
      | inr task ↦
          (let (o, same, quiet) = msg_task-IsQuiet h names m.buf e in
            rw (task, handle_message) (rw same (after_task-Answers m o rest rs task quiet prev)))
    ]

-- Where the table of commands has its last entry "null", the thread calls msgSendAck once for every
-- message with a key that it takes, in their order, with that key and the sender's flag, whatever the
-- text is; it sets the flag of every answer, and no other; and it ends only when the queue is removed,
-- by the process's exit, or when `running` is cleared: never on what a command asks for.
pub msg_thread-Answers :
    (h : Host) (names : List Text) (rs : List RcvAnswer)
    → has_end names ≡ true
    → Answers rs (msg_thread h names rs)
unfolding msg_thread
msg_thread-Answers h names [] e = record { replies = refl; flags = refl; ends = refl }
msg_thread-Answers h names (interrupted ∷ rs) e =
    let rest = msg_thread-Answers h names rs e in
    record { replies = rest.replies; flags = rest.flags; ends = rest.ends }
msg_thread-Answers h names (removed ∷ rs) e = record { replies = refl; flags = refl; ends = refl }
msg_thread-Answers h names (failed ∷ rs) e =
    let rest = msg_thread-Answers h names rs e in
    record { replies = rest.replies; flags = rest.flags; ends = rest.ends }
msg_thread-Answers h names (received m ∷ rs) e =
    handle_message-Answers h names m (msg_thread h names rs) rs e (msg_thread-Answers h names rs e)
