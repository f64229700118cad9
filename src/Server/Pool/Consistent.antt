-- ===== src/Server/Pool/Consistent.antt =====
-- What the counters say of the children, and what the parent's forks leave of it.
use spmfilter.Base.{
  lt_ℤ, diff, inc-diff, eq_ℤ-refl, ℕ, suc, ◌+◌, ◌≤◌, ◌<◌, ◌≡◌, refl, sym, ◌≢◌, inl, inr, Bool, true,
  false, ◌&&◌, Option, none, some, List, ◌∷◌, arith, if◌then◌else◌, Bool-cases, ℤ, pos, eq_ℤ,
  positive, eq_ℤ_iff,
}
use spmfilter.Server.{server_fork, add_child}
use spmfilter.Server.Tables.{entries, entries-put_free}
use spmfilter.Server.Pool.{ChildPhase, Child, child, idle, busy, Pool, phase_of, forked, recorded}
use spmfilter.Server.Pool.Counts.{number, number_absent, any}
use mathlib.Core.Path.{subst}

abbrev pub is_idle : ℤ → ChildPhase → Bool
is_idle _ idle = true
is_idle _ _ = false

abbrev pub is_busy : ℤ → ChildPhase → Bool
is_busy _ busy = true
is_busy _ _ = false

abbrev pub has_pid : ℤ → ℤ → ChildPhase → Bool
has_pid p q _ = eq_ℤ q p

abbrev pub busy_with : ℤ → ℤ → ChildPhase → Bool
busy_with p q a = is_busy q a && eq_ℤ q p

abbrev pub pending : Option ℤ → ℕ
pending none = 0
pending (some _) = 1

abbrev pub shift : Option ℤ → ℕ → ℕ
shift none n = n
shift (some _) n = suc n

abbrev pub pending_with : ℤ → Option ℤ → ℕ
pending_with p none = 0
pending_with p (some q) = if eq_ℤ q p then 1 else 0

-- `m` is max_childs, `u` is `unrecorded`.
pub record Agrees (m : ℕ) (u : Option ℤ) (s : Pool) : Type 0 where
  pub procs : s.counters.num_procs ≡ diff (number any s.children) (pending u)
  pub spare : s.counters.num_spare ≡ diff (number is_idle s.children) (shift u s.lost)
  pub within : number any s.children ≤ m
  pub distinct : (p : ℤ) → number (has_pid p) s.children ≤ 1
  pub positives : number (has_pid (pos 0)) s.children ≡ 0
  pub new : (p : ℤ) → pending_with p u ≤ number (has_pid p) s.children
  pub table :
      (p : ℤ)
      → p ≢ pos 0
      → entries p s.counters.childs + pending_with p u ≡ number (has_pid p) s.children
  pub free : entries (pos 0) s.counters.childs + number any s.children ≡ m + pending u
  pub table_active :
      (p : ℤ) → p ≢ pos 0 → entries p s.counters.childs_active ≡ number (busy_with p) s.children
  pub free_active : entries (pos 0) s.counters.childs_active + number is_busy s.children ≡ m

unfoldable pub IsConsistent : ℕ → Pool → Type 0
IsConsistent m s = Agrees m s.unrecorded s

fork_room : (n m : ℕ) (x : ℤ) → x ≡ pos n → lt_ℤ x (pos m) ≡ true → n < m
fork_room n m x hx hl = ground arith

positive-apart : (p : ℤ) → positive p ≡ true → eq_ℤ p (pos 0) ≡ false
unfolding positive eq_ℤ
positive-apart p h = ground arith

fork_distinct :
    (p q : ℤ) (xs : List Child)
    → number (has_pid p) xs ≡ 0
    → number (has_pid q) xs ≤ 1
    → number (has_pid q) (child p idle ∷ xs) ≤ 1
unfolding number
fork_distinct p q xs ha hd = elim (Bool-cases (eq_ℤ p q)) [
  | inl y ↦
      let hq : number (has_pid q) xs ≡ 0 =
        subst (λ r. number (has_pid r) xs ≡ 0) ((eq_ℤ_iff p q).0 y) ha in
      rw y omega arith
  | inr z ↦ rw z hd
]

new_apart : (p : ℤ) (n : ℕ) → n ≡ 0 → pending_with (pos 0) (some p) ≤ n → eq_ℤ p (pos 0) ≡ false
new_apart p n hn h = ground arith

pub zero-apart : (q : ℤ) → q ≢ pos 0 → eq_ℤ (pos 0) q ≡ false
zero-apart q h = elim (Bool-cases (eq_ℤ (pos 0) q)) [
  | inl y ↦ absurd (h (sym ((eq_ℤ_iff (pos 0) q).0 y)))
  | inr z ↦ z
]

module _ (m : ℕ) where
  pub forked-IsConsistent :
      (s : Pool) (p : ℤ)
      → IsConsistent m s
      → s.unrecorded ≡ none
      → lt_ℤ s.counters.num_procs (pos m) ≡ true
      → positive p ≡ true
      → phase_of p s.children ≡ none
      → IsConsistent m (forked p s)
  unfolding forked number IsConsistent
  forked-IsConsistent s p c0 hu hl hp hn =
      let c : Agrees m none s = subst (λ u. Agrees m u s) hu c0 in
      let room : number any s.children < m =
        fork_room (number any s.children) m s.counters.num_procs c.procs hl in
      let absent : number (has_pid p) s.children ≡ 0 = number_absent p s.children hn in
      let apart = positive-apart p hp in
      record {
        procs = c.procs;
        spare = c.spare;
        within = omega arith;
        distinct = λ q. fork_distinct p q s.children absent (c.distinct q);
        positives = rw (apart, c.positives) refl;
        new = λ q. ground arith;
        table = λ q nq. ground (arith, c.table q nq);
        free = omega (arith, c.free);
        table_active = c.table_active;
        free_active = c.free_active;
      }

  pub recorded-IsConsistent :
      (s : Pool) (p : ℤ) → IsConsistent m s → s.unrecorded ≡ some p → IsConsistent m (recorded p s)
  unfolding recorded server_fork add_child IsConsistent
  recorded-IsConsistent s p c0 hu =
      let c : Agrees m (some p) s = subst (λ u. Agrees m u s) hu c0 in
      let apart : eq_ℤ p (pos 0) ≡ false =
        new_apart p (number (has_pid (pos 0)) s.children) c.positives (c.new (pos 0)) in
      let room : 0 < entries (pos 0) s.counters.childs = omega (arith, c.free, c.within) in
      record {
        procs = rw c.procs (inc-diff (number any s.children) 0);
        spare = rw c.spare (inc-diff (number is_idle s.children) s.lost);
        within = c.within;
        distinct = c.distinct;
        positives = c.positives;
        new = λ q. omega arith;
        table = λ q nq. ground (
          arith,
          c.table q nq,
          entries-put_free p q s.counters.childs apart room,
          zero-apart q nq,
        );
        free = ground (
          arith,
          c.free,
          eq_ℤ-refl (pos 0),
          entries-put_free p (pos 0) s.counters.childs apart room,
        );
        table_active = c.table_active;
        free_active = c.free_active;
      }
