-- ===== src/Server/Tables.antt =====
-- The tables of pids: what the operations do to the number of entries with a pid.
use spmfilter.Base.{
  ℕ, ◌+◌, ◌<◌, ◌≡◌, refl, inl, inr, Bool, true, false, ◌&&◌, List, [], ◌∷◌, arith, ltb,
  if◌then◌else◌, Bool-cases, ℤ, pos, eq_ℤ, positive, eq_ℤ_iff,
}
use spmfilter.Server.{terminated, put_free, clear, holds_pid}

-- The entries with a pid.
unfoldable pub entries : ℤ → List ℤ → ℕ
entries p [] = 0
entries p (x ∷ xs) = (if eq_ℤ x p then 1 else 0) + entries p xs

-- In a table with a free entry the pid is stored, and no other entry but that one is lost.
pub entries-put_free :
    (pid p : ℤ) (xs : List ℤ)
    → eq_ℤ pid (pos 0) ≡ false
    → 0 < entries (pos 0) xs
    → entries p (put_free pid xs) + (if eq_ℤ (pos 0) p then 1 else 0)
      ≡ entries p xs + (if eq_ℤ pid p then 1 else 0)
unfolding entries put_free
entries-put_free pid p [] n h = absurd (omega arith)
entries-put_free pid p (x ∷ xs) n h = elim (Bool-cases (eq_ℤ x (pos 0))) [
  | inl y ↦ rw (y, (eq_ℤ_iff x (pos 0)).0 y) omega arith
  | inr z ↦ rw z omega (arith, entries-put_free pid p xs n ground arith)
]

pub entries-clear :
    (pid p : ℤ) (xs : List ℤ)
    → holds_pid pid xs ≡ true
    → entries p (clear pid xs) + (if eq_ℤ pid p then 1 else 0)
      ≡ entries p xs + (if eq_ℤ (pos 0) p then 1 else 0)
unfolding entries clear holds_pid
entries-clear pid p [] h = absurd (cc)
entries-clear pid p (x ∷ xs) h = elim (Bool-cases (eq_ℤ x pid)) [
  | inl y ↦ rw (y, (eq_ℤ_iff x pid).0 y) omega arith
  | inr z ↦ rw z omega (arith, entries-clear pid p xs ground arith)
]

-- A pid that is not there leaves the table as it is.
pub clear_absent : (pid : ℤ) (xs : List ℤ) → holds_pid pid xs ≡ false → clear pid xs ≡ xs
unfolding clear holds_pid
clear_absent pid [] h = refl
clear_absent pid (x ∷ xs) h = elim (Bool-cases (eq_ℤ x pid)) [
  | inl y ↦ absurd (ground arith)
  | inr z ↦ rw (z, clear_absent pid xs (ground arith)) refl
]

pub holds_pid-entries : (pid : ℤ) (xs : List ℤ) → holds_pid pid xs ≡ ltb 0 (entries pid xs)
unfolding entries holds_pid
holds_pid-entries pid [] = ground arith
holds_pid-entries pid (x ∷ xs) = ground (arith, holds_pid-entries pid xs)

pub entries_cleared :
    (pid p : ℤ) (xs : List ℤ) (b : Bool)
    → holds_pid pid xs ≡ b
    → entries p (clear pid xs) + (if b && eq_ℤ pid p then 1 else 0)
      ≡ entries p xs + (if b && eq_ℤ (pos 0) p then 1 else 0)
entries_cleared pid p xs true h = entries-clear pid p xs h
entries_cleared pid p xs false h = rw (clear_absent pid xs h) refl

positive-apart : (p x : ℤ) → positive p ≡ true → positive x ≡ false → eq_ℤ x p ≡ false
unfolding positive eq_ℤ
positive-apart p x h z = ground arith

pub entries-terminated :
    (p : ℤ) (xs : List ℤ) → positive p ≡ true → entries p (terminated xs) ≡ entries p xs
unfolding entries terminated
entries-terminated p [] h = refl
entries-terminated p (x ∷ xs) h = elim (Bool-cases (positive x)) [
  | inl y ↦ rw (y, entries-terminated p xs h) refl
  | inr z ↦ rw (z, entries-terminated p xs h, positive-apart p x h z) omega arith
]
