-- ===== src/Examples/MessagesSent.antt =====
-- The laws of the messages between processes at concrete inputs.
use aiotc.Prelude.{ℕ, ◌≡◌, refl, Bool, true, none, some, List, [], ◌∷◌, arith, ltb, if◌then◌else◌}
use aiotc.Cstring.{Text, codes, strcmp_eq, strncmp_eq}
use aiotc.Json.{Host, get_str_val_from_json, descend, copy_string}
use aiotc.Messages.{
  SndAnswer, sent, again, message, msg_send, carry, called, replied, wrote, find_command, RcvAnswer,
  interrupted, removed, received, stopped, msg_thread, ack_message, attemp_loop, wait_loop,
}
use aiotc.Messages.Sends.{Sends, msg_send-Sends}
use aiotc.Messages.Answers.{Answers, msg_thread-Answers}
use aiotc.Messages.Trip.{msg_send-answered}
use aiotc.Examples.Setup.{one_document}

-- A document `{"cmd": "stopTask"}`.
abbrev command : Host
command = record one_document {
  get_object_item = λ n name. if strcmp_eq name (codes "cmd") then some 1 else none;
  valuestring = λ n. some (codes "stopTask");
}

abbrev table : List Text
table = codes "startTask" ∷ codes "stopTask" ∷ codes "null" ∷ []

-- A queue that is full for the first two calls, and a flag that is set before the third look.
abbrev full_twice : ℕ → SndAnswer
full_twice j = if ltb j 2 then again else sent

abbrev third_look : ℕ → Bool
third_look j = ltb 1 j

msg_send-Sends_example :
    Sends true
      (some 9)
      full_twice
      third_look
      5
      10
      (msg_send true (some 9) full_twice third_look (codes "{}") 5 10)
msg_send-Sends_example = msg_send-Sends true (some 9) full_twice third_look (codes "{}") 5 10

-- A request with an answer wanted, one without, and an answer, before the queue is removed.
abbrev mixed : List RcvAnswer
mixed =
    received (message (codes "{}") 5 9)
    ∷ interrupted
    ∷ received (message (codes "{}") 0 0)
    ∷ received (ack_message 12)
    ∷ removed
    ∷ received (message (codes "{}") 6 10)
    ∷ []

msg_thread-Answers_example : Answers mixed (msg_thread command table mixed)
unfolding strncmp_eq strcmp_eq
msg_thread-Answers_example = msg_thread-Answers command table mixed refl

msg_send-answered_example :
    (msg_thread command table (received (carry (message (codes "{}") 5 9)) ∷ [])
      ≡ (called 1 (codes "{}") ∷ replied 5 9 ∷ [], stopped))
    × (msg_thread command [] (received (carry (ack_message 9)) ∷ []) ≡ (wrote 9 ∷ [], stopped))
unfolding strncmp_eq strcmp_eq find_command get_str_val_from_json descend copy_string msg_send
    attemp_loop wait_loop
msg_send-answered_example =
    msg_send-answered command command table [] full_twice third_look (codes "{}") (codes "stopTask")
      1 5 9 10 (message (codes "{}") 5 9) (omega arith) (omega arith) (omega arith) refl refl refl
