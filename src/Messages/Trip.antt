-- ===== src/Messages/Trip.antt =====
-- A request and its answer between two processes (msgSend and msgThread of src/msg.cpp).
use aiotc.Prelude.{
  suc_==_zero, ℕ, zero, suc, ◌≤◌, ◌<◌, ◌≡◌, refl, sym, ap, ◌∙◌, Bool, true, false, none, some, List,
  [], ◌∷◌, arith, length, take, take_all, if◌then◌else◌, pos,
}
use aiotc.Cstring.{Text}
use aiotc.Json.{Host, str_at}
use aiotc.Messages.{
  MsgBuf, SndAnswer, attemp_loop, message, msg_send, carry, called, replied, wrote, runs,
  find_command, msg_task, received, stopped, handle_message, msg_thread, ack_message,
}

posted-message : (b : Bool) (m n : MsgBuf) → (if b then some n else none) ≡ some m → m ≡ n
posted-message true m n e = ground (arith, e)
posted-message false m n e = cc

msg_send-posted :
    (answer : ℕ → SndAnswer) (flag : ℕ → Bool) (text : Text) (k a t : ℕ)
    → (msg_send true (some a) answer flag text (suc k) t).posted
      ≡ (if (attemp_loop 3 answer 0).0 then some (message text (suc k) a) else none)
unfolding msg_send
msg_send-posted answer flag text k a t = rw (suc_==_zero k, msg_send) refl

msg_send-message :
    (answer : ℕ → SndAnswer) (flag : ℕ → Bool) (text : Text) (k a t : ℕ) (m : MsgBuf)
    → (msg_send true (some a) answer flag text (suc k) t).posted ≡ some m
    → m ≡ message text (suc k) a
msg_send-message answer flag text k a t m e =
    posted-message (attemp_loop 3 answer 0).0 m (message text (suc k) a)
      (sym (msg_send-posted answer flag text k a t) ∙ e)

abbrev with_text : ℕ → ℕ → Text → MsgBuf
with_text k a text = record { key = k; ptr = a; buf = text }

carry-whole :
    (text : Text) (k a : ℕ) → length text ≤ 240 → carry (message text k a) ≡ with_text k a text
unfolding carry
carry-whole text k a le =
    ap (with_text k a)
      (ap (take 240) (take_all 255 text (omega (arith, le))) ∙ take_all 240 text le)

msg_task-runs :
    (h : Host) (names : List Text) (text cmd : Text) (i : ℕ)
    → str_at h text "cmd" ≡ some cmd
    → find_command names cmd 0 ≡ runs i
    → msg_task h names text ≡ some (called i text ∷ [], pos 0)
unfolding msg_task
msg_task-runs h names text cmd i is hit = rw (is, msg_task) (rw hit refl)

msg_thread-request :
    (h : Host) (names : List Text) (text cmd : Text) (i k a : ℕ)
    → str_at h text "cmd" ≡ some cmd
    → find_command names cmd 0 ≡ runs i
    → msg_thread h names (received (with_text (suc k) (suc a) text) ∷ [])
      ≡ (called i text ∷ replied (suc k) (suc a) ∷ [], stopped)
unfolding msg_thread handle_message
msg_thread-request h names text cmd i k a is hit =
    rw (suc_==_zero k, msg_thread)
      (rw (suc_==_zero a, handle_message)
        (rw (msg_task-runs h names text cmd i is hit) (rw (suc_==_zero k) refl)))

msg_thread-answer :
    (h : Host) (names : List Text) (a : ℕ)
    → msg_thread h names (received (carry (ack_message (suc a))) ∷ [])
      ≡ (wrote (suc a) ∷ [], stopped)
unfolding msg_thread handle_message carry
msg_thread-answer h names a = rw (suc_==_zero a, handle_message) refl

-- A request of msgSend for a command of the receiver's table, in a text of at most 240 bytes, with an
-- allocated flag and a key to answer to: once `msgsnd` takes it, the receiver's thread calls the
-- command's function with the whole text, exactly once, and then msgSendAck with the sender's key and
-- flag; and the sender's thread, on the message of that msgSendAck, sets that flag and does nothing else.
pub msg_send-answered :
    (h h2 : Host) (names names2 : List Text) (answer : ℕ → SndAnswer) (flag : ℕ → Bool)
    (text cmd : Text) (i key ack t : ℕ) (m : MsgBuf)
    → length text ≤ 240
    → 0 < key
    → 0 < ack
    → str_at h text "cmd" ≡ some cmd
    → find_command names cmd 0 ≡ runs i
    → (msg_send true (some ack) answer flag text key t).posted ≡ some m
    → (msg_thread h names (received (carry m) ∷ [])
        ≡ (called i text ∷ replied key ack ∷ [], stopped))
      × (msg_thread h2 names2 (received (carry (ack_message ack)) ∷ []) ≡ (wrote ack ∷ [], stopped))
msg_send-answered h h2 names names2 answer flag text cmd i zero ack t m le k a is hit e =
    absurd (omega (arith, k))
msg_send-answered h h2 names names2 answer flag text cmd i (suc key) zero t m le k a is hit e =
    absurd (omega (arith, a))
msg_send-answered h h2 names names2 answer flag text cmd i (suc key) (suc ack) t m le k a is hit e =
    let whole =
      ap carry (msg_send-message answer flag text key (suc ack) t m e)
      ∙ carry-whole text (suc key) (suc ack) le in
    (
      ap (λ x. msg_thread h names (received x ∷ [])) whole
          ∙ msg_thread-request h names text cmd i key ack is hit,
      msg_thread-answer h2 names2 ack,
    )
