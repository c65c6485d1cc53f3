-- ===== src/Ipc.antt =====
-- The removal of old message queues at the start (src/misc.cpp): clearSystemIpc reads the lines of
-- /proc/sysvipc/msg, dealBuffer takes a line apart in place, checkMsgKey tests the key, and clearMsg
-- removes the queue with that id.
pub mod Strings
pub mod Words
use aiotc.Prelude.{
  ℕ, zero, suc, ◌+◌, ◌-◌, ◌*◌, Bool, true, false, not, ◌&&◌, ◌||◌, Option, none, some, List, [],
  ◌∷◌, ◌++◌, leb, ◌==◌, if◌then◌else◌, length, ◌>>=◌,
}
use aiotc.Cstring.{Text}

-- A range of codes; isdigit and isalnum of the C locale
abbrev between : ℕ → ℕ → ℕ → Bool
between lo hi c = leb lo c && leb c hi

unfoldable pub isdigit : ℕ → Bool
isdigit c = between 48 57 c

unfoldable pub isalnum : ℕ → Bool
isalnum c = between 48 57 c || (between 65 90 c || between 97 122 c)

-- The C string at a position of a buffer.
unfoldable pub string_at : ℕ → Text → Text
string_at zero [] = []
string_at zero (c ∷ cs) = let rest = string_at zero cs in if c == 0 then [] else c ∷ rest
string_at (suc k) [] = []
string_at (suc k) (c ∷ cs) = string_at k cs

-- atoi, and strtol with base 10, of a text that does not begin with a sign or a space.
unfoldable pub read_number : ℕ → Text → ℕ
unfolding isdigit
read_number acc [] = acc
read_number acc (c ∷ cs) =
    let rest = read_number (acc * 10 + (c - 48)) cs in if isdigit c then rest else acc

unfoldable pub all_digits : Text → Bool
unfolding isdigit
all_digits [] = true
all_digits (c ∷ cs) = isdigit c && all_digits cs

-- check_is_num_str
unfoldable pub check_is_num_str : Text → Bool
unfolding all_digits
check_is_num_str [] = false
check_is_num_str (c ∷ cs) = all_digits (c ∷ cs)

-- What dealBuffer has when its loop ends: the buffer with what it wrote, `key_str` and `id_str` as
-- positions in it.
pub record Parsed : Type 0 where
  pub buffer : Text
  pub key_str : Option ℕ
  pub id_str : Option ℕ

-- `p` is at the end of a line or of the text.
abbrev pub is_end : ℕ → Bool
is_end c = c == 0 || c == 10

-- A word ends at `p`, where '\0' is written: `ended` is the buffer then, and `next` goes on behind `p`
-- with the flag cleared.
abbrev end_word : (ended : Text) → (key_str id_str : Option ℕ) → (next : Parsed) → Parsed
end_word ended (some k) id_str next =
    if check_is_num_str (string_at k ended)
    then next
    else record { buffer = ended; key_str = none; id_str = id_str }
end_word ended none (some k) next = record {
  buffer = ended;
  key_str = none;
  id_str = if check_is_num_str (string_at k ended) then some k else none;
}
end_word ended none none next = next

-- The position of a word that begins at `p`, for `key_str` and for `id_str`.
abbrev new_key : Option ℕ → ℕ → Option ℕ
new_key none p = some p
new_key (some k) p = some k

abbrev new_id : (key_str id_str : Option ℕ) → ℕ → Option ℕ
new_id none id_str p = id_str
new_id (some k) none p = some p
new_id (some k) (some j) p = some j

-- The loop of dealBuffer: the part of the buffer behind which `p` points, and the part from `p` on.
unfoldable pub deal_loop :
    (passed rest : Text) → (preflag : Bool) → (key_str id_str : Option ℕ) → Parsed
unfolding isalnum string_at check_is_num_str
deal_loop passed [] preflag key_str id_str = record {
  buffer = passed;
  key_str = key_str;
  id_str = id_str;
}
deal_loop passed (c ∷ cs) preflag key_str id_str =
    let p = length passed in
    let inside = deal_loop (passed ++ c ∷ []) cs true key_str id_str in
    let begun =
      deal_loop (passed ++ c ∷ []) cs true (new_key key_str p) (new_id key_str id_str p) in
    let outside = deal_loop (passed ++ c ∷ []) cs false key_str id_str in
    let behind = deal_loop (passed ++ 0 ∷ []) cs false key_str id_str in
    if is_end c
    then record { buffer = passed ++ c ∷ cs; key_str = key_str; id_str = id_str }
    else if isalnum c
    then (if preflag then inside else begun)
    else if preflag
    then end_word (passed ++ 0 ∷ cs) key_str id_str behind
    else outside

-- checkMsgKey: whether it returns 0.
unfoldable pub check_msg_key : (start max : ℕ) → Text → Bool
unfolding read_number
check_msg_key start max key_str =
    let key = read_number 0 key_str in leb start key && leb key (start + max)

-- The end of dealBuffer, with `check` and `clear`.
abbrev pub removed_id : (start max : ℕ) → Parsed → Option ℕ
removed_id start max r = do
  k ← r.key_str
  j ← r.id_str
  if check_msg_key start max (string_at k r.buffer)
      then some (read_number 0 (string_at j r.buffer))
      else none

-- dealBuffer with checkMsgKey and clearMsg: the id of the message queue that it removes.
unfoldable pub deal_buffer : (start max : ℕ) → Text → Option ℕ
unfolding deal_loop check_msg_key
deal_buffer start max buffer = removed_id start max (deal_loop [] buffer false none none)

-- clearSystemIpc: the ids of the queues that it removes, of the lines of the file.
unfoldable pub clear_system_ipc : (start max : ℕ) → List Text → List ℕ
unfolding deal_buffer
clear_system_ipc start max [] = []
clear_system_ipc start max (line ∷ lines) =
    let rest = clear_system_ipc start max lines in
    elim (deal_buffer start max line) [ none ↦ rest | some id ↦ id ∷ rest ]
