-- ===== src/Ipc/Strings.antt =====
-- The strings in the buffer that dealBuffer takes apart in place (src/misc.cpp).
use aiotc.Prelude.{ℕ, ◌+◌, ◌-◌, ◌*◌, ◌≡◌, refl, ap, ◌∙◌, true, [], ◌∷◌, ◌++◌, arith, length}
use mathlib.Core.List.{append_assoc}
use aiotc.Cstring.{Text}
use aiotc.Ipc.{isdigit, isalnum, string_at, read_number, is_end}

-- A text without a character that ends a string.
abbrev pub IsWord : Text → Type 0
IsWord [] = Unit
IsWord (c ∷ cs) = (isalnum c ≡ true) × IsWord cs

pub IsWord-append : (word : Text) (c : ℕ) → IsWord word → isalnum c ≡ true → IsWord (word ++ c ∷ [])
IsWord-append [] c h e = (e, tt)
IsWord-append (x ∷ word) c h e = (h.0, IsWord-append word c h.1 e)

pub string_at-skip : (xs ys : Text) → string_at (length xs) (xs ++ ys) ≡ string_at 0 ys
unfolding string_at
string_at-skip [] ys = refl
string_at-skip (x ∷ xs) ys = string_at-skip xs ys

pub string_at-zero : (word ys : Text) → IsWord word → string_at 0 (word ++ 0 ∷ ys) ≡ word
unfolding string_at isalnum
string_at-zero [] ys h = refl
string_at-zero (c ∷ word) ys h = ground (arith, string_at-zero word ys h.1)

pub string_at-all : (word : Text) → IsWord word → string_at 0 word ≡ word
unfolding string_at isalnum
string_at-all [] h = refl
string_at-all (c ∷ word) h = ground (arith, string_at-all word h.1)

pub string_at-word :
    (xs word ys : Text) → IsWord word → string_at (length xs) ((xs ++ word) ++ 0 ∷ ys) ≡ word
string_at-word xs word ys h =
    ap (string_at (length xs)) (append_assoc xs word (0 ∷ ys))
    ∙ string_at-skip xs (word ++ 0 ∷ ys)
    ∙ string_at-zero word ys h

-- Its number does not depend on what stands behind it, where that is the end of the line.
pub read_number-end :
    (acc : ℕ) (word : Text) (c : ℕ) (ys : Text)
    → is_end c ≡ true
    → IsWord word
    → read_number acc (string_at 0 (word ++ c ∷ ys)) ≡ read_number acc word
unfolding read_number string_at isalnum isdigit
read_number-end acc [] c ys e h = ground arith
read_number-end acc (x ∷ word) c ys e h =
    ground (arith, read_number-end (acc * 10 + (x - 48)) word c ys e h.1)

-- The string at position `k` is `word`, whatever comes behind what `p` has passed.
unfoldable pub StringAt : ℕ → Text → Text → Type 0
StringAt k word passed = (rest : Text) → string_at k (passed ++ rest) ≡ word

pub StringAt-snoc :
    (k : ℕ) (word passed : Text) (c : ℕ)
    → StringAt k word passed
    → StringAt k word (passed ++ c ∷ [])
unfolding StringAt
StringAt-snoc k word passed c h rest =
    ap (string_at k) (append_assoc passed (c ∷ []) rest) ∙ h (c ∷ rest)

pub StringAt-append :
    (k : ℕ) (word passed xs : Text) (c : ℕ)
    → StringAt k word passed
    → StringAt k word ((passed ++ xs) ++ c ∷ [])
unfolding StringAt
StringAt-append k word passed xs c h rest =
    ap (string_at k) (append_assoc (passed ++ xs) (c ∷ []) rest ∙ append_assoc passed xs (c ∷ rest))
    ∙ h (xs ++ c ∷ rest)

pub StringAt-ended :
    (passed word : Text) → IsWord word → StringAt (length passed) word ((passed ++ word) ++ 0 ∷ [])
unfolding StringAt
StringAt-ended passed word h rest =
    ap (string_at (length passed))
      (append_assoc (passed ++ word) (0 ∷ []) rest ∙ append_assoc passed word (0 ∷ rest))
    ∙ string_at-skip passed (word ++ 0 ∷ rest)
    ∙ string_at-zero word rest h
