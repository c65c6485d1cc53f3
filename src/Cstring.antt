-- ===== src/Cstring.antt =====
-- C strings: the bytes before the terminating zero, with the calls that the program makes on them.
use Prim.Native.Char.{code}
use Prim.Native.String.{String}
use aiotc.Prelude.{ℕ, ◌≡◌, ◌↔◌, Bool, true, false, ◌&&◌, ◌||◌, List, [], ◌∷◌, arith, ◌==◌, take}

abbrev pub Text : Type 0
Text = List ℕ

-- The bytes of a literal, which is ASCII.
abbrev pub codes : String → Text
codes String.[] = []
codes (String.◌∷◌ c s) = code c ∷ codes s

-- `strcmp(a, b) == 0`
unfoldable pub strcmp_eq : Text → Text → Bool
strcmp_eq [] [] = true
strcmp_eq [] (y ∷ ys) = false
strcmp_eq (x ∷ xs) [] = false
strcmp_eq (x ∷ xs) (y ∷ ys) = x == y && strcmp_eq xs ys

-- `strncmp(a, b, n) == 0`
unfoldable pub strncmp_eq : ℕ → Text → Text → Bool
unfolding strcmp_eq
strncmp_eq n a b = strcmp_eq (take n a) (take n b)

-- What `strncpy(dst, src, n)` leaves in a buffer of `n` bytes, read up to its end.
abbrev pub strncpy : ℕ → Text → Text
strncpy = take

pub strcmp_eq_iff : (a b : Text) → (strcmp_eq a b ≡ true) ↔ (a ≡ b)
unfolding strcmp_eq
strcmp_eq_iff [] [] = ground arith
strcmp_eq_iff [] (y ∷ ys) = ground arith
strcmp_eq_iff (x ∷ xs) [] = ground arith
strcmp_eq_iff (x ∷ xs) (y ∷ ys) = ground (arith, strcmp_eq_iff xs ys)

-- Whether `strstr(text, pattern)` finds `pattern` at the start, and anywhere.
unfoldable pub starts_with : Text → Text → Bool
starts_with pattern [] = strcmp_eq pattern []
starts_with [] (x ∷ xs) = true
starts_with (y ∷ ys) (x ∷ xs) = y == x && starts_with ys xs

unfoldable pub strstr : Text → Text → Bool
unfolding starts_with strcmp_eq
strstr [] pattern = starts_with pattern []
strstr (x ∷ xs) pattern = starts_with pattern (x ∷ xs) || strstr xs pattern
