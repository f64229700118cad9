-- ===== src/Server/Pool/Counts.antt =====
-- The children that a test accepts, and what the steps do to their number.
use spmfilter.Base.{
  ℕ, suc, ◌+◌, ◌≤◌, ◌≡◌, refl, inl, inr, Bool, true, false, none, some, List, [], ◌∷◌, arith,
  if◌then◌else◌, Bool-cases, ℤ, eq_ℤ, eq_ℤ_iff,
}
use spmfilter.Server.Pool.{ChildPhase, Child, child, phase_of, set_phase, remove_child}

abbrev pub one_if : Bool → ℕ
one_if b = if b then 1 else 0

abbrev pub bump : Bool → ℕ → ℕ
bump true n = suc n
bump false n = n

unfoldable pub number : (ℤ → ChildPhase → Bool) → List Child → ℕ
number f [] = 0
number f (child q a ∷ xs) = bump (f q a) (number f xs)

pub phase_of-first :
    (p q : ℤ) (a c : ChildPhase) (xs : List Child)
    → eq_ℤ q p ≡ true
    → phase_of p (child q c ∷ xs) ≡ some a
    → (q ≡ p) × (c ≡ a)
unfolding phase_of
phase_of-first p q a c xs y h = ((eq_ℤ_iff q p).0 y, ground arith)

pub phase_of-later :
    (p q : ℤ) (a c : ChildPhase) (xs : List Child)
    → eq_ℤ q p ≡ false
    → phase_of p (child q c ∷ xs) ≡ some a
    → phase_of p xs ≡ some a
unfolding phase_of
phase_of-later p q a c xs z h = ground arith

pub number-set_phase :
    (f : ℤ → ChildPhase → Bool) (p : ℤ) (a b : ChildPhase) (xs : List Child)
    → phase_of p xs ≡ some a
    → number f (set_phase p b xs) + one_if (f p a) ≡ number f xs + one_if (f p b)
unfolding number set_phase phase_of
number-set_phase f p a b [] h = absurd (cc)
number-set_phase f p a b (child q c ∷ xs) h = elim (Bool-cases (eq_ℤ q p)) [
  | inl y ↦ let (eq, ea) = phase_of-first p q a c xs y h in rw (y, eq, ea) ground arith
  | inr z ↦ rw z ground (arith, number-set_phase f p a b xs (phase_of-later p q a c xs z h))
]

pub number-remove_child :
    (f : ℤ → ChildPhase → Bool) (p : ℤ) (a : ChildPhase) (xs : List Child)
    → phase_of p xs ≡ some a
    → number f (remove_child p xs) + one_if (f p a) ≡ number f xs
unfolding number remove_child phase_of
number-remove_child f p a [] h = absurd (cc)
number-remove_child f p a (child q c ∷ xs) h = elim (Bool-cases (eq_ℤ q p)) [
  | inl y ↦ let (eq, ea) = phase_of-first p q a c xs y h in rw (y, eq, ea) ground arith
  | inr z ↦ rw z ground (arith, number-remove_child f p a xs (phase_of-later p q a c xs z h))
]

abbrev pub any : ℤ → ChildPhase → Bool
any _ _ = true

-- A wider test accepts no fewer.
pub number-le :
    (f g : ℤ → ChildPhase → Bool) (xs : List Child)
    → ((q : ℤ) (a : ChildPhase) → f q a ≡ true → g q a ≡ true)
    → number f xs ≤ number g xs
unfolding number
number-le f g [] h = omega arith
number-le f g (child q a ∷ xs) h = ground (arith, number-le f g xs h, h q a)

pub number_absent :
    (p : ℤ) (xs : List Child) → phase_of p xs ≡ none → number (λ q _. eq_ℤ q p) xs ≡ 0
unfolding number phase_of
number_absent p [] h = refl
number_absent p (child q a ∷ xs) h = elim (Bool-cases (eq_ℤ q p)) [
  | inl y ↦ absurd (ground arith)
  | inr z ↦ rw (z, number_absent p xs (ground arith)) refl
]
