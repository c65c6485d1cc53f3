-- ===== src/Config/Ports/Texts.antt =====
-- Searches, copies and numbers in a text of nginx (getNginxPort of src/db.cpp).
use mathlib.Core.List.{append_assoc}
use native.Mathlib.Nat.{pow-suc}
use aiotc.Prelude.{
  ℕ, zero, suc, ◌+◌, ◌^◌, ◌<◌, ◌≤◌, ◌≡◌, refl, ap, ◌∙◌, Bool, true, false, ◌&&◌, some, [], ◌∷◌,
  ◌++◌, All, pos, arith, ltb, ◌==◌, length, inl, inr, Bool-cases, All-append, leb, ◌/◌, ◌%◌,
}
use aiotc.Cstring.{Text, codes, starts_with, strstr, strcmp_eq}
use aiotc.Ipc.{read_number, isdigit}
use aiotc.Rest.{digits}
use aiotc.Rest.Body.{c_string}
use aiotc.Config.Ports.{
  find_text, end_at_semicolon, skip_spaces, signed, atoi, positive_int, isspace,
}

starts_with-append :
    (p xs ys : Text) → length p ≤ length xs → starts_with p (xs ++ ys) ≡ starts_with p xs
unfolding starts_with strcmp_eq
starts_with-append [] [] [] h = refl
starts_with-append [] [] (y ∷ ys) h = refl
starts_with-append [] (x ∷ xs) ys h = refl
starts_with-append (c ∷ p) [] ys h = absurd (omega (arith, h))
starts_with-append (c ∷ p) (x ∷ xs) ys h =
    ap (λ b. c == x && b) (starts_with-append p xs ys (omega (arith, h)))

starts_with_nothing : (xs : Text) → starts_with [] xs ≡ true
unfolding starts_with strcmp_eq
starts_with_nothing [] = refl
starts_with_nothing (x ∷ xs) = refl

append_listen :
    (before rest : Text)
    → before ++ (codes "listen" ++ rest) ≡ (before ++ codes "liste") ++ (110 ∷ rest)
append_listen [] rest = refl
append_listen (x ∷ before) rest = ap (◌∷◌ x) (append_listen before rest)

length_listen : (before : Text) → length (before ++ codes "liste") ≡ 5 + length before
length_listen [] = refl
length_listen (x ∷ before) = omega (arith, length_listen before)

-- The first match of a word is where it was written, if there is none before it.
pub find_text_at :
    (before rest : Text)
    → strstr (before ++ codes "liste") (codes "listen") ≡ false
    → find_text (before ++ (codes "listen" ++ rest)) (codes "listen")
      ≡ some (codes "listen" ++ rest)
unfolding find_text strstr
find_text_at [] rest h =
    let e : starts_with (codes "listen") (codes "listen" ++ rest) ≡ true =
      unfold starts_with in starts_with_nothing rest in
    rw e refl
find_text_at (x ∷ before) rest h =
    let e : starts_with (codes "listen") (x ∷ (before ++ codes "liste")) ≡ false =
      ground (arith, h) in
    let later : strstr (before ++ codes "liste") (codes "listen") ≡ false = ground (arith, h) in
    let here : starts_with (codes "listen") (x ∷ (before ++ (codes "listen" ++ rest))) ≡ false =
      ap (λ t. starts_with (codes "listen") (x ∷ t)) (append_listen before rest)
      ∙ starts_with-append (codes "listen") (x ∷ (before ++ codes "liste")) (110 ∷ rest)
          (omega (arith, length_listen before))
      ∙ e in
    rw here (find_text_at before rest later)

pub end_at_semicolon_at :
    (t rest : Text)
    → All (λ c. (c == 59) ≡ false) t
    → end_at_semicolon (t ++ 59 ∷ rest) ≡ some (t ++ 0 ∷ rest)
unfolding end_at_semicolon
end_at_semicolon_at [] rest h = refl
end_at_semicolon_at (x ∷ t) rest h = rw (h.0, end_at_semicolon_at t rest h.1) refl

pub c_string-append :
    (t rest : Text) → All (λ c. (c == 0) ≡ false) t → c_string (t ++ rest) ≡ t ++ c_string rest
unfolding c_string
c_string-append [] rest h = refl
c_string-append (x ∷ t) rest h = rw (h.0) (ap (◌∷◌ x) (c_string-append t rest h.1))

-- The digits of a number are read as the number.
pub read_number-digits :
    (fuel n : ℕ) (rest : Text)
    → n < 10 ^ fuel
    → read_number 0 (digits fuel n ++ rest) ≡ read_number n rest
unfolding digits read_number isdigit
read_number-digits zero n rest h = ap (λ k. read_number k rest) (omega (arith, h))
read_number-digits (suc fuel) n rest h =
    let small : n / 10 < 10 ^ fuel = ground (arith, h, pow-suc 10 fuel) in
    let ih = read_number-digits fuel (n / 10) ((48 + n % 10) ∷ rest) small in
    elim (Bool-cases (ltb n 10)) [
      | inl e ↦ rw e (ground (arith, e))
      | inr e ↦ rw e (
          ap (read_number 0) (append_assoc (digits fuel (n / 10)) ((48 + n % 10) ∷ []) rest)
          ∙ ih
          ∙ ground (arith, e))
    ]

-- Neither a terminating zero, a semicolon, nor a space or a sign is among the digits.
abbrev pub plain : ℕ → Bool
plain c = leb 48 c && leb c 57

pub digits-plain : (fuel n : ℕ) → All (λ c. plain c ≡ true) (digits fuel n)
unfolding digits
digits-plain zero n = tt
digits-plain (suc fuel) n = elim (Bool-cases (ltb n 10)) [
  | inl e ↦ rw e (ground (arith, e), tt)
  | inr e ↦ rw e (
      All-append (λ c. plain c ≡ true) (digits fuel (n / 10)) _ (digits-plain fuel (n / 10))
        (ground arith, tt))
]

pub All-map : {P Q : ℕ → Type 0} (xs : Text) → ((c : ℕ) → P c → Q c) → All P xs → All Q xs
All-map [] f h = tt
All-map (x ∷ xs) f h = (f x h.0, All-map xs f h.1)

pub atoi-digits :
    (ds rest : Text)
    → All (λ c. plain c ≡ true) ds
    → atoi (ds ++ 0 ∷ rest) ≡ positive_int (read_number 0 (ds ++ 0 ∷ rest))
unfolding atoi skip_spaces signed
atoi-digits [] rest h = refl
atoi-digits (x ∷ ds) rest h = ground (arith, h.0)

-- A number below 2 ^ 31 is the `int`.
pub positive_int_small : (n : ℕ) → n < 2 ^ 31 → positive_int n ≡ pos n
positive_int_small n h =
    let small : ltb n (2 ^ 63) ≡ true = ground (arith, h) in
    let low : n % 2 ^ 32 ≡ n = omega (arith, h) in
    let positive : ltb n (2 ^ 31) ≡ true = ground (arith, h) in rw small (rw low (rw positive refl))

pub atoi_spaces : (gap t : Text) → All (λ c. isspace c ≡ true) gap → atoi (gap ++ t) ≡ atoi t
unfolding atoi skip_spaces
atoi_spaces [] t h = refl
atoi_spaces (x ∷ gap) t h = rw (h.0) (atoi_spaces gap t h.1)
