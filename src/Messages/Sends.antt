-- ===== src/Messages/Sends.antt =====
-- The two loops of msgSend (src/msg.cpp), and all branches of msgSend.
use aiotc.Prelude.{
  suc_==_zero, ℕ, zero, suc, ◌+◌, ◌*◌, ◌≤◌, ◌<◌, ◌≡◌, ◌↔◌, ◌⊎◌, inl, inr, refl, sym, ap, ◌∙◌, Bool,
  true, false, not, ◌&&◌, Option, none, some, is_some, minus_one, arith, ◌==◌, if◌then◌else◌,
  Bool-cases,
}
use aiotc.Cstring.{Text}
use aiotc.Messages.{
  SndAnswer, sent, again, refused, attemp_loop, wait_loop, Sending, not_sent, message, msg_send,
  MsgBuf,
}

-- How the loop over `msgsnd` ends that begins with call number `i` and can go on `n` times.
record IsTried (answer : ℕ → SndAnswer) (n i : ℕ) (out : Bool × ℕ) : Type 0 where
  some_call : i < out.1
  at_most : out.1 ≤ i + n + 1
  retried : (j : ℕ) → i ≤ j → suc j < out.1 → answer j ≡ again
  last_call : (j : ℕ) → out.1 ≡ suc j → (out.0 ≡ true) ↔ (answer j ≡ sent)
  given_up : (j : ℕ) → out.1 ≡ suc j → answer j ≡ again → j ≡ i + n

SndAnswer-cases : (a : SndAnswer) → (a ≡ sent) ⊎ ((a ≡ again) ⊎ (a ≡ refused))
SndAnswer-cases sent = inl refl
SndAnswer-cases again = inr (inl refl)
SndAnswer-cases refused = inr (inr refl)

suc_injective : (i j : ℕ) → suc i ≡ suc j → i ≡ j
suc_injective i j e = omega (arith, e)

≡_or_< : (i j : ℕ) → i ≤ j → (i ≡ j) ⊎ (suc i ≤ j)
≡_or_< i j le = ground (arith, le)

stop-IsTried :
    (answer : ℕ → SndAnswer) (n i : ℕ) (b : Bool)
    → (b ≡ true) ↔ (answer i ≡ sent)
    → (answer i ≡ again → n ≡ 0)
    → IsTried answer n i (b, suc i)
stop-IsTried answer n i b h g = record {
  some_call = omega arith;
  at_most = omega arith;
  retried = λ j le lt. absurd (omega (arith, le, lt));
  last_call = λ j e. (
    (λ b. sym (ap answer (suc_injective i j e)) ∙ h.0 b),
    (λ a. h.1 (ap answer (suc_injective i j e) ∙ a)),
  );
  given_up = λ j e a. omega (arith, e, g (ap answer (suc_injective i j e) ∙ a));
}

more-IsTried :
    (answer : ℕ → SndAnswer) (n i : ℕ) (out : Bool × ℕ)
    → answer i ≡ again
    → IsTried answer n (suc i) out
    → IsTried answer (suc n) i out
more-IsTried answer n i out e h = record {
  some_call = omega (arith, h.some_call);
  at_most = omega (arith, h.at_most);
  retried = λ j le lt. elim (≡_or_< i j le) [
    | inl same ↦ sym (ap answer same) ∙ e
    | inr later ↦ h.retried j later lt
  ];
  last_call = h.last_call;
  given_up = λ j c a. omega (arith, h.given_up j c a);
}

attemp_loop-IsTried :
    (answer : ℕ → SndAnswer) (n i : ℕ) → IsTried answer n i (attemp_loop n answer i)
unfolding attemp_loop
attemp_loop-IsTried answer zero i = elim (SndAnswer-cases (answer i)) [
  | inl e ↦ rw (e, attemp_loop) (stop-IsTried answer 0 i true ((λ t. e), (λ t. refl)) (λ t. refl))
  | inr (inl e) ↦
      rw (e, attemp_loop) (stop-IsTried answer 0 i false ((λ t. cc), (λ t. cc)) (λ t. refl))
  | inr (inr e) ↦
      rw (e, attemp_loop) (stop-IsTried answer 0 i false ((λ t. cc), (λ t. cc)) (λ t. refl))
]
attemp_loop-IsTried answer (suc n) i = elim (SndAnswer-cases (answer i)) [
  | inl e ↦
      rw (e, attemp_loop) (stop-IsTried answer (suc n) i true ((λ t. e), (λ t. refl)) (λ t. cc))
  | inr (inl e) ↦
      rw (e, attemp_loop)
        (more-IsTried answer n i (attemp_loop n answer (suc i)) e
          (attemp_loop-IsTried answer n (suc i)))
  | inr (inr e) ↦
      rw (e, attemp_loop) (stop-IsTried answer (suc n) i false ((λ t. cc), (λ t. cc)) (λ t. cc))
]

-- How the loop over the flag ends that begins with look number `i`.
record IsWatched (flag : ℕ → Bool) (n i : ℕ) (out : Bool × ℕ) : Type 0 where
  some_look : i < out.1
  at_most : out.1 ≤ i + n + 1
  unset : (j : ℕ) → i ≤ j → suc j < out.1 → flag j ≡ false
  last_look : (j : ℕ) → out.1 ≡ suc j → out.0 ≡ flag j
  given_up : out.0 ≡ false → out.1 ≡ i + n + 1

stop-IsWatched :
    (flag : ℕ → Bool) (n i : ℕ) (b : Bool)
    → b ≡ flag i
    → (b ≡ false → n ≡ 0)
    → IsWatched flag n i (b, suc i)
stop-IsWatched flag n i b h g = record {
  some_look = omega arith;
  at_most = omega arith;
  unset = λ j le lt. absurd (omega (arith, le, lt));
  last_look = λ j e. h ∙ ap flag (suc_injective i j e);
  given_up = λ e. omega (arith, g e);
}

more-IsWatched :
    (flag : ℕ → Bool) (n i : ℕ) (out : Bool × ℕ)
    → flag i ≡ false
    → IsWatched flag n (suc i) out
    → IsWatched flag (suc n) i out
more-IsWatched flag n i out e h = record {
  some_look = omega (arith, h.some_look);
  at_most = omega (arith, h.at_most);
  unset = λ j le lt. elim (≡_or_< i j le) [
    | inl same ↦ sym (ap flag same) ∙ e
    | inr later ↦ h.unset j later lt
  ];
  last_look = h.last_look;
  given_up = λ c. omega (arith, h.given_up c);
}

wait_loop-IsWatched : (flag : ℕ → Bool) (n i : ℕ) → IsWatched flag n i (wait_loop n flag i)
unfolding wait_loop
wait_loop-IsWatched flag zero i = stop-IsWatched flag 0 i (flag i) refl (λ t. refl)
wait_loop-IsWatched flag (suc n) i = elim (Bool-cases (flag i)) [
  | inl e ↦ rw (e, wait_loop) (stop-IsWatched flag (suc n) i true (sym e) (λ t. cc))
  | inr e ↦
      rw (e, wait_loop)
        (more-IsWatched flag n i (wait_loop n flag (suc i)) e (wait_loop-IsWatched flag n (suc i)))
]

-- What msgSend did: `s`, of the parameters of the call.
pub record Sends (has_queue : Bool) (block : Option ℕ) (answer : ℕ → SndAnswer) (flag : ℕ → Bool)
    (recv_key : ℕ) (recv_timeout : ℕ) (s : Sending) : Type 0 where
  pub few_calls : s.calls ≤ 4
  pub few_looks : s.looks ≤ recv_timeout * 10 + 1
  pub retried : (j : ℕ) → suc j < s.calls → answer j ≡ again
  pub last_call : (j : ℕ) → s.calls ≡ suc j → (is_some s.posted ≡ true) ↔ (answer j ≡ sent)
  pub given_up : (j : ℕ) → s.calls ≡ suc j → answer j ≡ again → s.calls ≡ 4
  pub unset : (j : ℕ) → suc j < s.looks → flag j ≡ false
  pub last_look : (j : ℕ) → s.looks ≡ suc j → s.is_acked ≡ flag j
  pub timed_out : 0 < s.looks → s.is_acked ≡ false → s.looks ≡ recv_timeout * 10 + 1
  pub failed : (s.ret ≡ minus_one) ↔ (s.calls ≡ 0)
  pub asks : (0 < s.looks) ↔ (is_some s.freed ≡ true)
  pub frees : s.freed ≡ (if has_queue && not (recv_key == 0) then block else none)

not_sent-Sends :
    (has_queue : Bool) (block : Option ℕ) (answer : ℕ → SndAnswer) (flag : ℕ → Bool)
    (recv_key t : ℕ)
    → none ≡ (if has_queue && not (recv_key == 0) then block else none)
    → Sends has_queue block answer flag recv_key t not_sent
not_sent-Sends has_queue block answer flag recv_key t e = record {
  few_calls = omega arith;
  few_looks = omega arith;
  retried = λ j lt. absurd (omega (arith, lt));
  last_call = λ j c. absurd (omega (arith, c));
  given_up = λ j c. absurd (omega (arith, c));
  unset = λ j lt. absurd (omega (arith, lt));
  last_look = λ j c. absurd (omega (arith, c));
  timed_out = λ lt. absurd (omega (arith, lt));
  failed = ((λ t. refl), (λ t. refl));
  asks = ((λ lt. absurd (omega (arith, lt))), (λ b. cc));
  frees = e;
}

is_some-posted : (b : Bool) (m : MsgBuf) → is_some (if b then some m else none) ≡ b
is_some-posted true m = refl
is_some-posted false m = refl

-- All branches of msgSend. It calls `msgsnd` at most four times, again only after EAGAIN, and posts the
-- message exactly if the last call took it; it looks at its flag at most ten times for each second of the
-- timeout and once more, up to the first look that finds it set; it frees the flag that it allocated,
-- whether it saw it set or not; and it returns -1 exactly if it never called `msgsnd`, so that it
-- returns 0 also when no call took the message.
pub msg_send-Sends :
    (has_queue : Bool) (block : Option ℕ) (answer : ℕ → SndAnswer) (flag : ℕ → Bool) (buf : Text)
    (recv_key recv_timeout : ℕ)
    → Sends has_queue block answer flag recv_key recv_timeout
        (msg_send has_queue block answer flag buf recv_key recv_timeout)
unfolding msg_send
msg_send-Sends false block answer flag buf k t = not_sent-Sends false block answer flag k t refl
msg_send-Sends true block answer flag buf zero t =
    let tried = attemp_loop-IsTried answer 3 0 in
    record {
      few_calls = omega (arith, tried.at_most);
      few_looks = omega arith;
      retried = λ j lt. tried.retried j (omega arith) lt;
      last_call = λ j c.
          rw (is_some-posted (attemp_loop 3 answer 0).0 (message buf 0 0)) (tried.last_call j c);
      given_up = λ j c a. omega (arith, c, tried.given_up j c a);
      unset = λ j lt. absurd (omega (arith, lt));
      last_look = λ j c. absurd (omega (arith, c));
      timed_out = λ lt. absurd (omega (arith, lt));
      failed = ((λ c. cc), (λ c. absurd (omega (arith, c, tried.some_call))));
      asks = ((λ lt. absurd (omega (arith, lt))), (λ b. cc));
      frees = refl;
    }
msg_send-Sends true none answer flag buf (suc k) t =
    rw (suc_==_zero k, msg_send) (not_sent-Sends true none answer flag (suc k) t (ground arith))
msg_send-Sends true (some ack) answer flag buf (suc k) t =
    let tried = attemp_loop-IsTried answer 3 0 in
    let watched = wait_loop-IsWatched flag (t * 10) 0 in
    rw (suc_==_zero k, msg_send)
      record {
        few_calls = omega (arith, tried.at_most);
        few_looks = omega (arith, watched.at_most);
        retried = λ j lt. tried.retried j (omega arith) lt;
        last_call = λ j c.
            rw (is_some-posted (attemp_loop 3 answer 0).0 (message buf (suc k) ack))
              (tried.last_call j c);
        given_up = λ j c a. omega (arith, c, tried.given_up j c a);
        unset = λ j lt. watched.unset j (omega arith) lt;
        last_look = watched.last_look;
        timed_out = λ lt e. omega (arith, watched.given_up e);
        failed = ((λ c. cc), (λ c. absurd (omega (arith, c, tried.some_call))));
        asks = ((λ lt. refl), (λ b. watched.some_look));
        frees = ground arith;
      }
