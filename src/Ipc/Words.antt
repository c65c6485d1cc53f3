-- ===== src/Ipc/Words.antt =====
-- What dealBuffer makes of a line (src/misc.cpp).
use aiotc.Prelude.{
  ℕ, ◌≡◌, refl, sym, ap, ◌∙◌, Bool, true, false, ◌&&◌, Option, none, some, List, [], ◌∷◌, ◌++◌,
  arith, if◌then◌else◌, length, Bool-cases, inl, inr,
}
use mathlib.Core.List.{append-nil, append_assoc}
use aiotc.Cstring.{Text}
use aiotc.Ipc.{
  isalnum, string_at, read_number, check_is_num_str, is_end, deal_loop, check_msg_key, removed_id,
  deal_buffer,
}
use aiotc.Ipc.Strings.{
  IsWord, IsWord-append, string_at-skip, string_at-all, string_at-word, read_number-end, StringAt,
  StringAt-snoc, StringAt-append, StringAt-ended,
}

-- The words of a line: the longest stretches of letters and digits before its end. `word` is the one
-- that is being read.
abbrev close : Text → List Text → List Text
close [] ws = ws
close (c ∷ word) ws = (c ∷ word) ∷ ws

unfoldable pub words : (word : Text) → Text → List Text
words word [] = close word []
words word (c ∷ cs) =
    let longer = words (word ++ c ∷ []) cs in
    let next = words [] cs in
    if is_end c then close word [] else if isalnum c then longer else close word next

-- The first word is the key and the second one the id. Nothing is removed where the key is not a
-- number or there is no second word.
abbrev pub first_two : (start max : ℕ) → List Text → Option ℕ
first_two start max [] = none
first_two start max (key ∷ []) = none
first_two start max (key ∷ id ∷ ws) =
    if check_is_num_str key && check_msg_key start max key then some (read_number 0 id) else none

module _ (start max : ℕ) where
  -- The key is there and it is a number; the id is complete.
  module _ (k j : ℕ) (key id : Text) (num : check_is_num_str key ≡ true) where
    loop_behind :
        (passed cs : Text) (preflag : Bool)
        → StringAt k key passed
        → StringAt j id passed
        → removed_id start max (deal_loop passed cs preflag (some k) (some j))
          ≡ (if check_msg_key start max key then some (read_number 0 id) else none)
    unfolding deal_loop StringAt
    loop_behind passed [] preflag hk hj =
        let e = append-nil passed in
        rw (ap (string_at k) (sym e) ∙ hk [], ap (string_at j) (sym e) ∙ hj []) refl
    loop_behind passed (c ∷ cs) preflag hk hj = elim (Bool-cases (is_end c)) [
      | inl e ↦ rw (e, deal_loop) (rw (hk (c ∷ cs), hj (c ∷ cs)) refl)
      | inr e ↦ ground (
        arith,
        hk (0 ∷ cs),
        loop_behind (passed ++ c ∷ []) cs true (StringAt-snoc k key passed c hk)
            (StringAt-snoc j id passed c hj),
        loop_behind (passed ++ c ∷ []) cs false (StringAt-snoc k key passed c hk)
            (StringAt-snoc j id passed c hj),
        loop_behind (passed ++ 0 ∷ []) cs false (StringAt-snoc k key passed 0 hk)
            (StringAt-snoc j id passed 0 hj),
      )
    ]

  module _ (k : ℕ) (key : Text) (num : check_is_num_str key ≡ true) where
    -- `p` is in the id, of which `x ∷ id` is passed.
    loop_id :
        (passed cs : Text) (x : ℕ) (id : Text)
        → StringAt k key passed
        → IsWord (x ∷ id)
        → removed_id start max
            (deal_loop (passed ++ (x ∷ id)) cs true (some k) (some (length passed)))
          ≡ first_two start max (key ∷ words (x ∷ id) cs)
    unfolding deal_loop words StringAt
    loop_id passed [] x id hk w =
        ground (arith, num, hk (x ∷ id), string_at-skip passed (x ∷ id), string_at-all (x ∷ id) w)
    loop_id passed (c ∷ cs) x id hk w = elim (Bool-cases (is_end c)) [
      | inl e ↦ ground (
        arith,
        e,
        num,
        hk ((x ∷ id) ++ c ∷ cs),
        append_assoc passed (x ∷ id) (c ∷ cs),
        string_at-skip passed ((x ∷ id) ++ c ∷ cs),
        read_number-end 0 (x ∷ id) c cs e w,
      )
      | inr e ↦ elim (Bool-cases (isalnum c)) [
        | inl a ↦ ground (
          arith,
          e,
          a,
          append_assoc passed (x ∷ id) (c ∷ []),
          loop_id passed cs x (id ++ c ∷ []) hk (IsWord-append (x ∷ id) c w a),
        )
        | inr a ↦ ground (
          arith,
          e,
          a,
          num,
          hk ((x ∷ id) ++ 0 ∷ cs),
          append_assoc passed (x ∷ id) (0 ∷ cs),
          loop_behind k (length passed) key (x ∷ id) num ((passed ++ x ∷ id) ++ 0 ∷ []) cs false
              (StringAt-append k key passed (x ∷ id) 0 hk) (StringAt-ended passed (x ∷ id) w),
        )
      ]
    ]

    -- The key is complete, and no word has begun since.
    loop_between :
        (passed cs : Text)
        → StringAt k key passed
        → removed_id start max (deal_loop passed cs false (some k) none)
          ≡ first_two start max (key ∷ words [] cs)
    unfolding deal_loop words
    loop_between passed [] hk = refl
    loop_between passed (c ∷ cs) hk = ground (
      arith,
      loop_between (passed ++ c ∷ []) cs (StringAt-snoc k key passed c hk),
      λ (a : isalnum c ≡ true). loop_id passed cs c [] hk (a, tt),
    )

  first_two_not-number :
      (key : Text) (ws : List Text)
      → check_is_num_str key ≡ false
      → first_two start max (key ∷ ws) ≡ none
  first_two_not-number key [] e = refl
  first_two_not-number key (id ∷ ws) e = rw e refl

  -- `p` is in the key, of which `x ∷ key` is passed.
  loop_key :
      (passed cs : Text) (x : ℕ) (key : Text)
      → IsWord (x ∷ key)
      → removed_id start max (deal_loop (passed ++ (x ∷ key)) cs true (some (length passed)) none)
        ≡ first_two start max (words (x ∷ key) cs)
  unfolding deal_loop words
  loop_key passed [] x key w = refl
  loop_key passed (c ∷ cs) x key w = elim (Bool-cases (is_end c)) [
    | inl e ↦ ground (arith, e)
    | inr e ↦ elim (Bool-cases (isalnum c)) [
      | inl a ↦ ground (
        arith,
        e,
        a,
        append_assoc passed (x ∷ key) (c ∷ []),
        loop_key passed cs x (key ++ c ∷ []) (IsWord-append (x ∷ key) c w a),
      )
      | inr a ↦ elim (Bool-cases (check_is_num_str (x ∷ key))) [
        | inl num ↦ ground (
          arith,
          e,
          a,
          num,
          string_at-word passed (x ∷ key) cs w,
          append_assoc passed (x ∷ key) (0 ∷ cs),
          loop_between (length passed) (x ∷ key) num ((passed ++ x ∷ key) ++ 0 ∷ []) cs
              (StringAt-ended passed (x ∷ key) w),
        )
        | inr no_num ↦ ground (
          arith,
          e,
          a,
          no_num,
          string_at-word passed (x ∷ key) cs w,
          append_assoc passed (x ∷ key) (0 ∷ cs),
          first_two_not-number (x ∷ key) (words [] cs) no_num,
        )
      ]
    ]
  ]

  -- No word has begun.
  loop_before :
      (passed cs : Text)
      → removed_id start max (deal_loop passed cs false none none)
        ≡ first_two start max (words [] cs)
  unfolding deal_loop words
  loop_before passed [] = refl
  loop_before passed (c ∷ cs) = ground (
    arith,
    loop_before (passed ++ c ∷ []) cs,
    λ (a : isalnum c ≡ true). loop_key passed cs c [] (a, tt),
  )

  -- dealBuffer removes the message queue whose id is the second word of a line, where the first word is a
  -- number in the range of the keys, and none where the first word is not such a number or there is no
  -- second one. A word is a longest stretch of letters and digits; of the second word, only the number
  -- that it begins with counts.
  pub deal_buffer-first_two :
      (line : Text) → deal_buffer start max line ≡ first_two start max (words [] line)
  unfolding deal_buffer
  deal_buffer-first_two line = loop_before [] line
