-- ===== src/Base/Int.antt =====
-- C integers that may be negative, as the source's return codes.
use Prim.Native.Nat.{ℕ, zero, suc}
use mathlib.Core.Bool.{Bool, true, false}
use mathlib.Core.Path.{◌≡◌, refl}
use mathlib.Core.Logic.{◌↔◌}
use native.Mathlib.Omega.{arith}
use spmfilter.Base.Tests.{◌==◌, ltb}

-- `negsuc n` is -(n + 1).
pub data ℤ : Type 0 where
  pos : ℕ → ℤ
  negsuc : ℕ → ℤ

abbrev pub minus_one : ℤ
minus_one = negsuc 0

abbrev pub minus_two : ℤ
minus_two = negsuc 1

unfoldable pub eq_ℤ : ℤ → ℤ → Bool
eq_ℤ (pos a) (pos b) = a == b
eq_ℤ (negsuc a) (negsuc b) = a == b
eq_ℤ (pos _) (negsuc _) = false
eq_ℤ (negsuc _) (pos _) = false

-- 0 < a
unfoldable pub positive : ℤ → Bool
positive (pos a) = ltb 0 a
positive (negsuc _) = false

pub eq_ℤ_iff : (a b : ℤ) → (eq_ℤ a b ≡ true) ↔ (a ≡ b)
unfolding eq_ℤ
eq_ℤ_iff a b = ground arith

pub eq_ℤ-refl : (a : ℤ) → eq_ℤ a a ≡ true
eq_ℤ-refl a = (eq_ℤ_iff a a).1 refl

-- n++ and n--
abbrev pub inc : ℤ → ℤ
inc (pos n) = pos (suc n)
inc (negsuc zero) = pos 0
inc (negsuc (suc n)) = negsuc n

abbrev pub dec : ℤ → ℤ
dec (pos zero) = negsuc 0
dec (pos (suc n)) = pos n
dec (negsuc n) = negsuc (suc n)

-- a < b
abbrev pub lt_ℤ : ℤ → ℤ → Bool
lt_ℤ (pos a) (pos b) = ltb a b
lt_ℤ (pos _) (negsuc _) = false
lt_ℤ (negsuc _) (pos _) = true
lt_ℤ (negsuc a) (negsuc b) = ltb b a

-- The number of turns of a loop up to a bound.
abbrev pub to_ℕ : ℤ → ℕ
to_ℕ (pos n) = n
to_ℕ (negsuc _) = 0

-- a - b
abbrev pub diff : ℕ → ℕ → ℤ
diff a zero = pos a
diff zero (suc b) = negsuc b
diff (suc a) (suc b) = diff a b

pub inc-diff : (a b : ℕ) → inc (diff a (suc b)) ≡ diff a b
inc-diff zero zero = refl
inc-diff zero (suc b) = refl
inc-diff (suc a) zero = refl
inc-diff (suc a) (suc b) = inc-diff a b

pub inc-diff-suc : (a b : ℕ) → inc (diff a b) ≡ diff (suc a) b
inc-diff-suc a zero = refl
inc-diff-suc zero (suc zero) = refl
inc-diff-suc zero (suc (suc b)) = refl
inc-diff-suc (suc a) (suc b) = inc-diff-suc a b

pub dec-diff : (a b : ℕ) → dec (diff (suc a) b) ≡ diff a b
dec-diff a zero = refl
dec-diff zero (suc zero) = refl
dec-diff zero (suc (suc b)) = refl
dec-diff (suc a) (suc b) = dec-diff a b

pub dec-diff-suc : (a b : ℕ) → dec (diff a b) ≡ diff a (suc b)
dec-diff-suc zero zero = refl
dec-diff-suc zero (suc b) = refl
dec-diff-suc (suc a) zero = refl
dec-diff-suc (suc a) (suc b) = dec-diff-suc a b
