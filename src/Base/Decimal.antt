-- ===== src/Base/Decimal.antt =====
-- `printf` of a number by `%d`.
use Prim.Native.Nat.{ℕ, zero, suc, ◌+◌, ◌-◌, ◌*◌, ◌/◌, ◌%◌, ◌^◌, ◌≤◌, ◌<◌}
use mathlib.Core.Path.{◌≡◌, refl, sym, ap, ◌∙◌}
use mathlib.Core.Logic.{inl, inr}
use mathlib.Core.Bool.{false, ◌||◌}
use mathlib.Core.List.{[], ◌∷◌, ◌++◌}
use native.Mathlib.Omega.{arith}
use spmfilter.Base.Tests.{ltb, ◌==◌, if◌then◌else◌, Bool-cases}
use spmfilter.Base.Text.{Bytes, equal, equal_iff, contains}
use spmfilter.Base.Int.{ℤ, pos, negsuc, eq_ℤ, eq_ℤ_iff}

unfoldable pub show_digits : ℕ → ℕ → Bytes
show_digits zero n = []
show_digits (suc f) n =
    let rest = show_digits f (n / 10) ++ (48 + n % 10) ∷ [] in
    if ltb n 10 then (48 + n) ∷ [] else rest

unfoldable pub show_ℕ : ℕ → Bytes
unfolding show_digits
show_ℕ n = show_digits (n + 1) n

unfoldable pub show_ℤ : ℤ → Bytes
unfolding show_ℕ
show_ℤ (pos n) = show_ℕ n
show_ℤ (negsuc n) = b'-' ∷ show_ℕ (n + 1)

-- The int that an unsigned long has become on its way to `%i`.
unfoldable pub as_int : ℕ → ℤ
as_int n = let w = n % 2 ^ 32 in if ltb w (2 ^ 31) then pos w else negsuc (2 ^ 32 - w - 1)

-- The number that decimal digits stand for.
read_digits : ℕ → Bytes → ℕ
read_digits n [] = n
read_digits n (c ∷ cs) = read_digits (n * 10 + (c - 48)) cs

read_digits-append :
    (n : ℕ) (s : Bytes) (c : ℕ) → read_digits n (s ++ c ∷ []) ≡ read_digits n s * 10 + (c - 48)
unfolding read_digits
read_digits-append n [] c = refl
read_digits-append n (x ∷ s) c = read_digits-append (n * 10 + (x - 48)) s c

read_digits-show_digits : (f n : ℕ) → n < f → read_digits 0 (show_digits f n) ≡ n
unfolding show_digits read_digits
read_digits-show_digits zero n h = absurd (omega arith)
read_digits-show_digits (suc f) n h = elim (Bool-cases (ltb n 10)) [
  | inl y ↦ rw y (omega arith)
  | inr z ↦
      let big : 10 ≤ n = ground arith in
      rw
        (
          z,
          read_digits-append 0 (show_digits f (n / 10)) (48 + n % 10),
          read_digits-show_digits f (n / 10) (omega arith),
        )
        (omega arith)
]

contains-append : (c : ℕ) (s t : Bytes) → contains c (s ++ t) ≡ (contains c s || contains c t)
unfolding contains
contains-append c [] t = refl
contains-append c (x ∷ s) t = ground (arith, contains-append c s t)

show_digits-no_sign : (f n : ℕ) → contains b'-' (show_digits f n) ≡ false
unfolding show_digits contains
show_digits-no_sign zero n = refl
show_digits-no_sign (suc f) n = elim (Bool-cases (ltb n 10)) [
  | inl y ↦ rw y (ground arith)
  | inr z ↦
      rw
        (
          z,
          contains-append b'-' (show_digits f (n / 10)) ((48 + n % 10) ∷ []),
          show_digits-no_sign f (n / 10),
        )
        (ground arith)
]

-- The C integer that a text stands for.
read_ℤ : Bytes → ℤ
unfolding read_digits
read_ℤ [] = pos 0
read_ℤ (c ∷ cs) = if c == b'-' then negsuc (read_digits 0 cs - 1) else pos (read_digits 0 (c ∷ cs))

read_ℤ-no_sign : (s : Bytes) → contains b'-' s ≡ false → read_ℤ s ≡ pos (read_digits 0 s)
unfolding read_ℤ contains read_digits
read_ℤ-no_sign [] h = refl
read_ℤ-no_sign (c ∷ cs) h = ground arith

read_ℤ-show_ℤ : (n : ℤ) → read_ℤ (show_ℤ n) ≡ n
unfolding show_ℤ show_ℕ read_ℤ
read_ℤ-show_ℤ (pos n) =
    read_ℤ-no_sign (show_digits (n + 1) n) (show_digits-no_sign (n + 1) n)
    ∙ ap pos (read_digits-show_digits (n + 1) n (omega arith))
read_ℤ-show_ℤ (negsuc n) =
    ap (λ k. negsuc (k - 1)) (read_digits-show_digits (n + 1 + 1) (n + 1) (omega arith))
    ∙ ap negsuc (omega arith)

same_number : (m n : ℤ) → show_ℤ m ≡ show_ℤ n → m ≡ n
same_number m n e = sym (read_ℤ-show_ℤ m) ∙ (ap read_ℤ e ∙ read_ℤ-show_ℤ n)

ap_show : (m n : ℤ) → m ≡ n → show_ℤ m ≡ show_ℤ n
ap_show m n e = ap show_ℤ e

-- Two integers with the same text are the same.
pub equal-show_ℤ : (m n : ℤ) → equal (show_ℤ m) (show_ℤ n) ≡ eq_ℤ m n
equal-show_ℤ m n =
    ground (arith, equal_iff (show_ℤ m) (show_ℤ n), eq_ℤ_iff m n, same_number m n, ap_show m n)
