-- ===== src/Prelude/Int.antt =====
-- The C `int`, as an unbounded integer over the native numbers.
use Prim.Native.Nat.{ℕ, zero, suc}
use mathlib.Core.Path.{◌≡◌, refl}
use mathlib.Core.Logic.{◌↔◌}
use mathlib.Core.Bool.{Bool, true, false}
use native.Mathlib.Omega.{arith}
use aiotc.Prelude.Tests.{◌==◌, ltb}

-- `negsuc n` is -(n + 1).
pub data ℤ : Type 0 where
  pos : ℕ → ℤ
  negsuc : ℕ → ℤ

abbrev pub eq_ℤ : ℤ → ℤ → Bool
eq_ℤ (pos a) (pos b) = a == b
eq_ℤ (pos a) (negsuc b) = false
eq_ℤ (negsuc a) (pos b) = false
eq_ℤ (negsuc a) (negsuc b) = a == b

abbrev pub is_neg : ℤ → Bool
is_neg (pos n) = false
is_neg (negsuc n) = true

abbrev pub lt_ℤ : ℤ → ℤ → Bool
lt_ℤ (pos a) (pos b) = ltb a b
lt_ℤ (pos a) (negsuc b) = false
lt_ℤ (negsuc a) (pos b) = true
lt_ℤ (negsuc a) (negsuc b) = ltb b a

-- The value that the program's getters return for a missing key, -1.
abbrev pub minus_one : ℤ
minus_one = negsuc 0

pub eq_ℤ_iff : (a b : ℤ) → (eq_ℤ a b ≡ true) ↔ (a ≡ b)
eq_ℤ_iff (pos a) (pos b) = ground arith
eq_ℤ_iff (pos a) (negsuc b) = ground arith
eq_ℤ_iff (negsuc a) (pos b) = ground arith
eq_ℤ_iff (negsuc a) (negsuc b) = ground arith

pub lt_ℤ_trans : (a b c : ℤ) → lt_ℤ b a ≡ false → lt_ℤ c b ≡ false → lt_ℤ c a ≡ false
lt_ℤ_trans (pos a) (pos b) (pos c) h k = ground arith
lt_ℤ_trans (pos a) (pos b) (negsuc c) h k = cc
lt_ℤ_trans (pos a) (negsuc b) c h k = cc
lt_ℤ_trans (negsuc a) (pos b) (pos c) h k = refl
lt_ℤ_trans (negsuc a) (pos b) (negsuc c) h k = cc
lt_ℤ_trans (negsuc a) (negsuc b) (pos c) h k = refl
lt_ℤ_trans (negsuc a) (negsuc b) (negsuc c) h k = ground arith

pub lt_ℤ_irrefl : (a : ℤ) → lt_ℤ a a ≡ false
lt_ℤ_irrefl (pos a) = ground arith
lt_ℤ_irrefl (negsuc a) = ground arith

pub lt_ℤ_asym : (a b : ℤ) → lt_ℤ a b ≡ true → lt_ℤ b a ≡ false
lt_ℤ_asym (pos a) (pos b) h = ground arith
lt_ℤ_asym (pos a) (negsuc b) h = cc
lt_ℤ_asym (negsuc a) (pos b) h = refl
lt_ℤ_asym (negsuc a) (negsuc b) h = ground arith

-- Below what is below `c` is below `c`.
pub lt_ℤ_below : (a b c : ℤ) → lt_ℤ a b ≡ true → lt_ℤ b c ≡ true → lt_ℤ a c ≡ true
lt_ℤ_below (pos a) (pos b) (pos c) h k = ground arith
lt_ℤ_below (pos a) (pos b) (negsuc c) h k = cc
lt_ℤ_below (pos a) (negsuc b) c h k = cc
lt_ℤ_below (negsuc a) (pos b) (pos c) h k = refl
lt_ℤ_below (negsuc a) (pos b) (negsuc c) h k = cc
lt_ℤ_below (negsuc a) (negsuc b) (pos c) h k = refl
lt_ℤ_below (negsuc a) (negsuc b) (negsuc c) h k = ground arith

abbrev pub succ : ℤ → ℤ
succ (pos n) = pos (suc n)
succ (negsuc zero) = pos 0
succ (negsuc (suc n)) = negsuc n
