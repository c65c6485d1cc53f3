-- ===== src/Sockets/Ends.antt =====
-- The ends of blockSend and blockRecv (work/share/src/share.cpp).
use aiotc.Prelude.{
  ℕ, zero, suc, ◌+◌, ◌-◌, ◌≤◌, ◌<◌, ◌≡◌, refl, Bool, true, false, Option, some, [], ◌∷◌, ◌++◌, ℤ,
  pos, negsuc, eq_ℤ, arith, ◌==◌, length, length-append, length-take, take, take_all, inl, inr,
  Bool-cases,
}
use aiotc.Cstring.{Text}
use aiotc.Sockets.{
  Net, Selected, select_error, timeout, not_set, ready, Received, recv_error, received, Sent,
  broken, send_error, sent, drop, Done, done, after_recv, select_late, after_timeout, after_select,
  recv_loop, block_recv, after_send, after_select_send, send_loop, block_send,
}

module _ (net : Net) where
  open net use {World, select, recv, send, callback, recv_le, send_le}

  -- The call returns: 0 with `size` bytes moved, or another value with fewer.
  pub data Ends (size : ℕ) (r : Option (Done net)) : Type 0 where
    all : (d : Done net) → r ≡ some d → d.ret ≡ pos 0 → length d.moved ≡ size → Ends size r
    part :
        (d : Done net)
        → r ≡ some d
        → eq_ℤ d.ret (pos 0) ≡ false
        → length d.moved < size
        → Ends size r

  module _ (cb : Bool) (size : ℕ) where
    recv-Ends :
        (next : Text → World → Option (Done net)) (got : Text) (out : Received × World)
        → length got < size
        → ((bytes : Text) → out.0 ≡ received bytes → length bytes ≤ size - length got)
        → ((more : Text) (w : World)
            → length got < length more
            → length more < size
            → Ends size (next more w))
        → Ends size (after_recv net next size got out)
    unfolding after_recv
    recv-Ends next got (recv_error, w) lt fits go = part _ refl refl lt
    recv-Ends next got (received [], w) lt fits go = part _ refl refl lt
    recv-Ends next got (received (b ∷ bs), w) lt fits go =
        let more = got ++ b ∷ bs in
        let n = length-append {0} got (b ∷ bs) in
        let le : suc (length bs) ≤ size - length got = fits (b ∷ bs) refl in
        elim (Bool-cases (length more == size)) [
          | inl e ↦ rw e (all _ refl refl (ground arith))
          | inr f ↦ rw f (go more w (omega (arith, n)) (ground (arith, n, le)))
        ]

    late-Ends :
        (next : ℕ → World → Option (Done net)) (maxx : ℕ) (got : Text) (w : World)
        → length got < size
        → ((k : ℕ) (w : World) → k < maxx → Ends size (next k w))
        → Ends size (select_late net next maxx got w)
    unfolding select_late
    late-Ends next zero got w lt go = part _ refl refl lt
    late-Ends next (suc maxx) got w lt go = go maxx w (omega arith)

    timeout-Ends :
        (next : ℕ → World → Option (Done net)) (with_cb : Bool) (maxx : ℕ) (got : Text) (w : World)
        → length got < size
        → ((k : ℕ) (w : World) → k < maxx → Ends size (next k w))
        → Ends size (after_timeout net next with_cb maxx got w)
    unfolding after_timeout
    timeout-Ends next false maxx got w lt go = late-Ends next maxx got w lt go
    timeout-Ends next true maxx got w lt go = elim (Bool-cases (callback w).0) [
      | inl t ↦ rw t (part _ refl refl lt)
      | inr f ↦ rw f (late-Ends next maxx got (callback w).1 lt go)
    ]

    select-Ends :
        (next : ℕ → Text → World → Option (Done net)) (maxx : ℕ) (got : Text)
        (out : Selected × World)
        → length got < size
        → ((k : ℕ) (w : World) → k < maxx → Ends size (next k got w))
        → ((more : Text) (w : World)
            → length got < length more
            → length more < size
            → Ends size (next maxx more w))
        → Ends size (after_select net next cb size maxx got out)
    unfolding after_select
    select-Ends next maxx got (select_error, w) lt go go' = part _ refl refl lt
    select-Ends next maxx got (not_set, w) lt go go' = part _ refl refl lt
    select-Ends next maxx got (timeout, w) lt go go' =
        timeout-Ends (λ k w. next k got w) cb maxx got w lt go
    select-Ends next maxx got (ready, w) lt go go' =
        recv-Ends (next maxx) got (recv w (size - length got)) lt (recv_le w (size - length got))
          go'

    loop-Ends :
        (fuel maxx : ℕ) (got : Text) (w : World)
        → length got < size
        → maxx + (size - length got) ≤ fuel
        → Ends size (recv_loop net fuel cb size maxx got w)
    unfolding recv_loop
    loop-Ends zero maxx got w lt le = absurd (omega arith)
    loop-Ends (suc fuel) maxx got w lt le =
        select-Ends (recv_loop net fuel cb size) maxx got (select w) lt
          (λ k w less. loop-Ends fuel k got w lt (omega arith))
          (λ more w longer lt'. loop-Ends fuel maxx more w lt' (omega arith))

    -- For a size of one byte at least, blockRecv returns after at most `max` plus `size` rounds of its
    -- loop, whatever the socket does: 0 with exactly `size` bytes stored, or another value with fewer.
    pub block_recv-Ends :
        (fuel max : ℕ) (w : World)
        → 0 < size
        → max + size ≤ fuel
        → Ends size (block_recv net fuel cb size max w)
    unfolding block_recv
    block_recv-Ends fuel max w some_bytes le = loop-Ends fuel max [] w some_bytes (omega arith)

  module _ (src : Text) where
    part-Ends :
        (ret : ℤ) (n : ℕ) (w : World)
        → n < length src
        → eq_ℤ ret (pos 0) ≡ false
        → Ends (length src) (done net ret (take n src) w)
    part-Ends ret n w lt f =
        part (record { ret = ret; moved = take n src; world = w }) refl f
          (omega (arith, length-take n src))

    length-drop : (n : ℕ) (xs : Text) → length (drop n xs) ≡ length xs - n
    length-drop zero xs = omega arith
    length-drop (suc n) [] = omega arith
    length-drop (suc n) (x ∷ xs) = omega (arith, length-drop n xs)

    send-Ends :
        (next : ℕ → World → Option (Done net)) (n : ℕ) (out : Sent × World)
        → n < length src
        → ((k : ℕ) → out.0 ≡ sent k → suc k ≤ length src - n)
        → ((m : ℕ) (w : World) → n < m → m < length src → Ends (length src) (next m w))
        → Ends (length src) (after_send net next src n out)
    unfolding after_send
    send-Ends next n (broken, w) lt fits go = part-Ends (negsuc 2) n w lt refl
    send-Ends next n (send_error, w) lt fits go = part-Ends (negsuc 1) n w lt refl
    send-Ends next n (sent k, w) lt fits go =
        let le = fits k refl in
        elim (Bool-cases (n + suc k == length src)) [
          | inl e ↦
              let whole : take (n + suc k) src ≡ src = take_all (n + suc k) src (ground arith) in
              rw (e, whole) (all _ refl refl refl)
          | inr f ↦ rw f (go (n + suc k) w (omega arith) (ground (arith, le)))
        ]

    select_send-Ends :
        (next : ℕ → ℕ → World → Option (Done net)) (maxx n : ℕ) (out : Selected × World)
        → n < length src
        → ((k : ℕ) (w : World) → k < maxx → Ends (length src) (next k n w))
        → ((m : ℕ) (w : World) → n < m → m < length src → Ends (length src) (next maxx m w))
        → Ends (length src) (after_select_send net next src maxx n out)
    unfolding after_select_send
    select_send-Ends next maxx n (select_error, w) lt go go' = part-Ends (negsuc 5) n w lt refl
    select_send-Ends next maxx n (not_set, w) lt go go' = part-Ends (negsuc 0) n w lt refl
    select_send-Ends next zero n (timeout, w) lt go go' = part-Ends (negsuc 6) n w lt refl
    select_send-Ends next (suc maxx) n (timeout, w) lt go go' = go maxx w (omega arith)
    select_send-Ends next maxx n (ready, w) lt go go' =
        send-Ends (next maxx) n (send w (drop n src)) lt
          (λ k e. omega (arith, send_le w (drop n src) k e, length-drop n src)) go'

    send_loop-Ends :
        (fuel maxx n : ℕ) (w : World)
        → n < length src
        → maxx + (length src - n) ≤ fuel
        → Ends (length src) (send_loop net fuel src maxx n w)
    unfolding send_loop
    send_loop-Ends zero maxx n w lt le = absurd (omega arith)
    send_loop-Ends (suc fuel) maxx n w lt le =
        select_send-Ends (send_loop net fuel src) maxx n (select w) lt
          (λ k w less. send_loop-Ends fuel k n w lt (omega arith))
          (λ m w longer lt'. send_loop-Ends fuel maxx m w lt' (omega arith))

    -- For a text of one byte at least, blockSend returns after at most `max` rounds of its loop and
    -- one for each byte, whatever the socket does: 0 with all the bytes sent, or another value with
    -- fewer.
    pub block_send-Ends :
        (fuel max : ℕ) (w : World)
        → 0 < length src
        → max + length src ≤ fuel
        → Ends (length src) (block_send net fuel src max w)
    unfolding block_send
    block_send-Ends fuel max w some_bytes le = send_loop-Ends fuel max 0 w some_bytes (omega arith)
