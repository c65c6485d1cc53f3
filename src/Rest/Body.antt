-- ===== src/Rest/Body.antt =====
-- The body of a request (request_cb of src/rest.cpp): the loop that reads it and the text that the
-- handler is given.
use aiotc.Prelude.{
  ℕ, zero, suc, ◌+◌, ◌-◌, ◌≤◌, ◌<◌, ◌≡◌, refl, ap, lt→ltb, false, [], ◌∷◌, ◌++◌, arith, ltb, ◌==◌,
  if◌then◌else◌, length, take, take_all, All, length-take, Bool-cases, inl, inr,
}
use aiotc.Cstring.{Text}

abbrev pub post_buf_max : ℕ
post_buf_max = 1024

-- The bytes from index `n` on.
abbrev drop : ℕ → Text → Text
drop zero xs = xs
drop (suc n) [] = []
drop (suc n) (x ∷ xs) = drop n xs

-- A C string in a buffer: the bytes before the first zero.
unfoldable pub c_string : Text → Text
c_string [] = []
c_string (x ∷ xs) = let rest = c_string xs in if x == 0 then [] else x ∷ rest

-- The loop of request_cb: `evbuffer_remove` moves the first bytes of the input over the first bytes
-- of `cbuf`, until the input is empty. The result is the input that is left and `cbuf`.
unfoldable pub read_input : (fuel : ℕ) → (input cbuf : Text) → Text × Text
read_input zero input cbuf = (input, cbuf)
read_input (suc fuel) input cbuf =
    let n = if ltb (length input) post_buf_max then length input else post_buf_max in
    let later = read_input fuel (drop n input) (take n input ++ drop n cbuf) in
    if length input == 0 then (input, cbuf) else later

-- `memset(cbuf, 0, POST_BUF_MAX)`
unfoldable pub zeros : ℕ → Text
zeros zero = []
zeros (suc n) = 0 ∷ zeros n

-- What request_cb hands to the handler.
unfoldable pub request_text : Text → Text
unfolding read_input c_string zeros
request_text body =
    c_string (take (post_buf_max - 1) (read_input (length body) body (zeros post_buf_max)).1)

length-drop : (n : ℕ) (xs : Text) → length (drop n xs) ≡ length xs - n
length-drop zero xs = omega arith
length-drop (suc n) [] = omega arith
length-drop (suc n) (x ∷ xs) = omega (arith, length-drop n xs)

-- The loop ends: with the length of the input as fuel, or more, no input is left.
pub read_input-empties :
    (fuel : ℕ) (input cbuf : Text) → length input ≤ fuel → length (read_input fuel input cbuf).0 ≡ 0
unfolding read_input
read_input-empties zero input cbuf le = omega arith
read_input-empties (suc fuel) input cbuf le =
    let n = if ltb (length input) post_buf_max then length input else post_buf_max in
    ground (
      arith,
      length-drop n input,
      read_input-empties fuel (drop n input) (take n input ++ drop n cbuf),
    )

-- A byte of a text is not the zero that ends it.
abbrev NoZero : Text → Type 0
NoZero = All (λ x. (x == 0) ≡ false)

c_string-whole : (body : Text) (k : ℕ) → NoZero body → c_string (body ++ zeros k) ≡ body
unfolding c_string zeros
c_string-whole [] zero h = refl
c_string-whole [] (suc k) h = refl
c_string-whole (x ∷ xs) k h = rw (h.0, c_string-whole xs k h.1) refl

drop-zeros : (n k m : ℕ) → m ≡ k - n → drop n (zeros k) ≡ zeros m
unfolding zeros
drop-zeros zero k m e = ap zeros {x = k} {y = m} (omega arith)
drop-zeros (suc n) zero m e = ap zeros {x = 0} {y = m} (omega arith)
drop-zeros (suc n) (suc k) m e = drop-zeros n k m (omega arith)

drop_all : (xs : Text) → drop (length xs) xs ≡ []
drop_all [] = refl
drop_all (x ∷ xs) = drop_all xs

take-zeros :
    (n k m : ℕ) (xs : Text) → n ≡ length xs + m → m ≤ k → take n (xs ++ zeros k) ≡ xs ++ zeros m
unfolding zeros
take-zeros zero k m [] h h' = ap zeros {x = 0} {y = m} (omega arith)
take-zeros (suc n) zero m [] h h' = absurd (omega arith)
take-zeros (suc n) (suc k) zero [] h h' = absurd (omega arith)
take-zeros (suc n) (suc k) (suc m) [] h h' =
    ap (◌∷◌ 0) (take-zeros n k m [] (omega arith) (omega arith))
take-zeros zero k m (x ∷ xs) h h' = absurd (omega arith)
take-zeros (suc n) k m (x ∷ xs) h h' = ap (◌∷◌ x) (take-zeros n k m xs (omega arith) h')

suc_not_zero : (n : ℕ) → (suc n == 0) ≡ false
suc_not_zero n = ground arith

read_input-nil : (fuel : ℕ) (cbuf : Text) → (read_input fuel [] cbuf).1 ≡ cbuf
unfolding read_input
read_input-nil zero cbuf = refl
read_input-nil (suc fuel) cbuf = refl

-- A body that fits is read in one round.
read_input-once :
    (fuel : ℕ) (input cbuf : Text)
    → length input ≤ fuel
    → length input < post_buf_max
    → (read_input fuel input cbuf).1 ≡ input ++ drop (length input) cbuf
unfolding read_input
read_input-once zero [] cbuf le lt = refl
read_input-once zero (x ∷ xs) cbuf le lt = absurd (omega arith)
read_input-once (suc fuel) [] cbuf le lt = refl
read_input-once (suc fuel) (x ∷ xs) cbuf le lt =
    rw
      (
        lt→ltb (length (x ∷ xs)) post_buf_max lt,
        drop_all xs,
        take_all (length xs) xs (omega arith),
        suc_not_zero (length xs),
      )
      (read_input-nil fuel (x ∷ (xs ++ drop (suc (length xs)) cbuf)))

-- The handler is given the body where that is shorter than 1024 bytes and has no zero byte.
pub request_text-whole :
    (body : Text) → length body < post_buf_max → NoZero body → request_text body ≡ body
unfolding request_text
request_text-whole body lt ok =
    let k = post_buf_max - length body in
    let m = post_buf_max - 1 - length body in
    rw
      (
        read_input-once (length body) body (zeros post_buf_max) (omega arith) lt,
        drop-zeros (length body) post_buf_max k refl,
        take-zeros (post_buf_max - 1) k m body (omega arith) (omega arith),
      )
      (c_string-whole body m ok)

c_string-NoZero : (xs : Text) → NoZero (c_string xs)
unfolding c_string
c_string-NoZero [] = tt
c_string-NoZero (x ∷ xs) = elim (Bool-cases (x == 0)) [
  | inl t ↦ rw (t, c_string) tt
  | inr f ↦ rw (f, c_string) (f, c_string-NoZero xs)
]

length-c_string : (xs : Text) → length (c_string xs) ≤ length xs
unfolding c_string
length-c_string [] = omega arith
length-c_string (x ∷ xs) = ground (arith, length-c_string xs)

-- A text that request_cb hands to a handler, sent as the body of a request, is handed on unchanged.
pub request_text-again : (body : Text) → request_text (request_text body) ≡ request_text body
unfolding request_text
request_text-again body =
    let cbuf = (read_input (length body) body (zeros post_buf_max)).1 in
    request_text-whole (request_text body)
      (omega (
        arith,
        length-c_string (take (post_buf_max - 1) cbuf),
        length-take (post_buf_max - 1) cbuf,
      ))
      (c_string-NoZero (take (post_buf_max - 1) cbuf))
