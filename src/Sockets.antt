-- ===== src/Sockets.antt =====
-- blockSend and blockRecv of work/share/src/share.cpp. The calls of the operating system are a
-- parameter: what select, send and recv answer, from the state of the world that they leave.
pub mod Ends
use aiotc.Prelude.{
  ℕ, zero, suc, ◌+◌, ◌-◌, ◌≤◌, ◌≡◌, Bool, true, false, Option, none, some, List, [], ◌∷◌, ◌++◌, ℤ,
  pos, negsuc, minus_one, ◌==◌, if◌then◌else◌, length, take,
}
use aiotc.Cstring.{Text}

-- What select answers: an error, a timeout, or that a descriptor is ready, which FD_ISSET confirms or
-- not.
pub data Selected : Type 0 where
  select_error timeout not_set ready : Selected

-- What recv answers: an error, or the bytes that it stores, none where the peer has shut down.
pub data Received : Type 0 where
  recv_error : Received
  received : Text → Received

-- What send answers: `broken` stands for errno EPIPE or ECONNRESET where it takes no byte, `send_error`
-- for another errno, and `sent k` for k + 1 bytes.
pub data Sent : Type 0 where
  broken send_error : Sent
  sent : ℕ → Sent

pub record Net : Type 1 where
  pub World : Type 0
  pub select : World → Selected × World
  pub recv : World → ℕ → Received × World
  pub send : World → Text → Sent × World
  pub callback : World → Bool × World
  -- recv stores no more bytes than the caller has room for, and send takes no more than it is given.
  pub recv_le :
      (w : World) (n : ℕ) (bytes : Text) → (recv w n).0 ≡ received bytes → length bytes ≤ n
  pub send_le : (w : World) (src : Text) (k : ℕ) → (send w src).0 ≡ sent k → suc k ≤ length src

-- The bytes from index `n` on.
abbrev pub drop : ℕ → Text → Text
drop zero xs = xs
drop (suc n) [] = []
drop (suc n) (x ∷ xs) = drop n xs

module _ (net : Net) where
  open net use {World, select, recv, send, callback}

  -- What a call leaves: its return value, the bytes that it has stored or sent, and the world.
  pub record Done : Type 0 where
    pub ret : ℤ
    pub moved : Text
    pub world : World

  abbrev done : ℤ → Text → World → Option Done
  done ret moved world = some (record { ret = ret; moved = moved; world = world })

  -- blockRecv, after recv: `errno == EAGAIN || EINTR` holds for every errno.
  unfoldable pub after_recv :
      (Text → World → Option Done) → (size : ℕ) → Text → Received × World → Option Done
  after_recv next size got (recv_error, w) = done (pos 2) got w
  after_recv next size got (received [], w) = done minus_one got w
  after_recv next size got (received (b ∷ bs), w) =
      if length (got ++ b ∷ bs) == size
      then done (pos 0) (got ++ b ∷ bs) w
      else next (got ++ b ∷ bs) w

  -- `if(maxx--) continue; return TIME_OUT`
  unfoldable pub select_late : (ℕ → World → Option Done) → ℕ → Text → World → Option Done
  select_late next zero got w = done (pos 1) got w
  select_late next (suc maxx) got w = next maxx w

  -- `callback != NULL && callback(arg) != 0`
  unfoldable pub after_timeout : (ℕ → World → Option Done) → Bool → ℕ → Text → World → Option Done
  unfolding select_late
  after_timeout next false maxx got w = select_late next maxx got w
  after_timeout next true maxx got w =
      let called = callback w in
      if called.0 then done (negsuc 3) got called.1 else select_late next maxx got called.1

  -- blockRecv, after select
  unfoldable pub after_select :
      (ℕ → Text → World → Option Done)
      → Bool
      → (size maxx : ℕ) → Text
      → Selected × World
      → Option Done
  unfolding after_recv after_timeout
  after_select next cb size maxx got (ready, w) =
      after_recv (next maxx) size got (recv w (size - length got))
  after_select next cb size maxx got (not_set, w) = done (negsuc 2) got w
  after_select next cb size maxx got (timeout, w) =
      after_timeout (λ maxx w. next maxx got w) cb maxx got w
  after_select next cb size maxx got (select_error, w) = done (negsuc 4) got w

  -- The loop of blockRecv, with `got` stored; `cb` says whether there is a callback.
  unfoldable pub recv_loop : ℕ → Bool → (size maxx : ℕ) → Text → World → Option Done
  unfolding after_select
  recv_loop zero cb size maxx got w = none
  recv_loop (suc fuel) cb size maxx got w =
      after_select (λ maxx got w. recv_loop fuel cb size maxx got w) cb size maxx got (select w)

  -- blockRecv
  unfoldable pub block_recv : ℕ → Bool → (size max : ℕ) → World → Option Done
  unfolding recv_loop
  block_recv fuel cb size max w = recv_loop fuel cb size max [] w

  -- blockSend, after send; `n` bytes are sent.
  unfoldable pub after_send : (ℕ → World → Option Done) → Text → ℕ → Sent × World → Option Done
  after_send next src n (broken, w) = done (negsuc 2) (take n src) w
  after_send next src n (send_error, w) = done (negsuc 1) (take n src) w
  after_send next src n (sent k, w) =
      if n + suc k == length src then done (pos 0) (take (n + suc k) src) w else next (n + suc k) w

  -- blockSend, after select
  unfoldable pub after_select_send :
      (ℕ → ℕ → World → Option Done) → Text → (maxx n : ℕ) → Selected × World → Option Done
  unfolding after_send select_late
  after_select_send next src maxx n (ready, w) = after_send (next maxx) src n (send w (drop n src))
  after_select_send next src maxx n (not_set, w) = done minus_one (take n src) w
  after_select_send next src zero n (timeout, w) = done (negsuc 6) (take n src) w
  after_select_send next src (suc maxx) n (timeout, w) = next maxx n w
  after_select_send next src maxx n (select_error, w) = done (negsuc 5) (take n src) w

  -- The loop of blockSend
  unfoldable pub send_loop : ℕ → Text → (maxx n : ℕ) → World → Option Done
  unfolding after_select_send
  send_loop zero src maxx n w = none
  send_loop (suc fuel) src maxx n w =
      after_select_send (λ maxx n w. send_loop fuel src maxx n w) src maxx n (select w)

  -- blockSend
  unfoldable pub block_send : ℕ → Text → (max : ℕ) → World → Option Done
  unfolding send_loop
  block_send fuel src max w = send_loop fuel src max 0 w
