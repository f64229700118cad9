-- ===== src/Server/Pool/Reap.antt =====
-- What the parent's `_smf_server_remove_active` leaves of the counters' agreement.
use spmfilter.Base.{
  dec, diff, dec-diff-suc, eq_ℤ-refl, dec-diff, ℕ, suc, ◌+◌, ◌≤◌, ◌≡◌, refl, sym, ◌≢◌, Bool, true,
  false, none, some, arith, if◌then◌else◌, ℤ, pos, eq_ℤ_iff,
}
use spmfilter.Server.{Counters, decrement_spare, remove_active, clear, holds_pid}
use spmfilter.Server.Tables.{entries, entries-clear, entries_cleared, holds_pid-entries}
use spmfilter.Server.Pool.{
  ChildPhase, idle, claimed, busy, Pool, phase_of, remove_child, is_claimed, reap,
}
use spmfilter.Server.Pool.Consistent.{
  is_idle, is_busy, has_pid, busy_with, Agrees, IsConsistent, zero-apart,
}
use spmfilter.Server.Pool.Counts.{number, number-le, number-remove_child, any, one_if}
use mathlib.Core.Path.{subst}
use spmfilter.Server.Pool.Children.{child-apart}

unfoldable reaped : Counters → ℤ → Bool → Counters
reaped c p b = record c {
  num_procs = dec c.num_procs;
  num_spare = if b then c.num_spare else dec c.num_spare;
  childs_active = clear p c.childs_active;
  childs = clear p c.childs;
}

remove_active-reaped :
    (c : Counters) (p : ℤ) (b : Bool)
    → holds_pid p c.childs_active ≡ b
    → remove_active c p ≡ reaped c p b
unfolding remove_active decrement_spare reaped
remove_active-reaped c p true h = rw h refl
remove_active-reaped c p false h = rw h refl

unfoldable reaped_pool : ℤ → ChildPhase → Pool → Pool
reaped_pool p a s = record s {
  counters = reaped s.counters p (is_busy p a);
  children = remove_child p s.children;
  lost = s.lost + (if is_claimed a then 1 else 0);
}

procs-reaped : (x : ℤ) (i j : ℕ) → x ≡ diff i 0 → j + 1 ≡ i → dec x ≡ diff j 0
procs-reaped x i j h e = let ei : i ≡ suc j = omega arith in rw (h, ei) refl

spare-reaped :
    (x : ℤ) (i j l : ℕ) (p : ℤ) (a : ChildPhase)
    → x ≡ diff i l
    → j + one_if (is_idle p a) ≡ i
    → (if is_busy p a then x else dec x) ≡ diff j (l + (if is_claimed a then 1 else 0))
unfolding is_claimed
spare-reaped x i j l p idle h e =
    let ei : i ≡ suc j = omega arith in
    let el : l + 0 ≡ l = omega arith in rw (h, ei, el) (dec-diff j l)
spare-reaped x i j l p claimed h e =
    let ei : i ≡ j = omega arith in
    let el : l + 1 ≡ suc l = omega arith in rw (h, ei, el) (dec-diff-suc j l)
spare-reaped x i j l p busy h e =
    let ei : i ≡ j = omega arith in let el : l + 0 ≡ l = omega arith in rw (h, ei, el) refl

-- With its pid on no other child, the removed child is listed as active exactly if it is busy.
module _ (m : ℕ) (s : Pool) (c : Agrees m none s) (p : ℤ) (a : ChildPhase)
    (hp : phase_of p s.children ≡ some a) where
  busy-number : number (busy_with p) s.children ≡ one_if (is_busy p a)
  busy-number = ground (
    arith,
    c.distinct p,
    eq_ℤ-refl p,
    number-remove_child (has_pid p) p a s.children hp,
    number-remove_child (busy_with p) p a s.children hp,
    le,
  )
    where
      le :
          number (busy_with p) (remove_child p s.children)
          ≤ number (has_pid p) (remove_child p s.children)
      le = number-le (busy_with p) (has_pid p) (remove_child p s.children) (λ q b h. ground arith)

  pid-apart : p ≢ pos 0
  pid-apart e = ground (arith, child-apart p a s.children hp c.positives, (eq_ℤ_iff p (pos 0)).1 e)

  holds_pid-active : holds_pid p s.counters.childs_active ≡ is_busy p a
  holds_pid-active =
      rw (holds_pid-entries p s.counters.childs_active) ground
        (arith, c.table_active p pid-apart, busy-number)

  holds_pid-childs : holds_pid p s.counters.childs ≡ true
  holds_pid-childs =
      rw (holds_pid-entries p s.counters.childs) ground
        (arith, c.table p pid-apart, eq_ℤ-refl p, number-remove_child (has_pid p) p a s.children hp)

  reap-childs :
      (q : ℤ)
      → q ≢ pos 0
      → entries q (clear p s.counters.childs) + 0 ≡ number (has_pid q) (remove_child p s.children)
  reap-childs q nq = ground (
    arith,
    c.table q nq,
    zero-apart q nq,
    number-remove_child (has_pid q) p a s.children hp,
    entries-clear p q s.counters.childs holds_pid-childs,
  )

  reap-free :
      entries (pos 0) (clear p s.counters.childs) + number any (remove_child p s.children) ≡ m + 0
  reap-free = ground (
    arith,
    c.free,
    eq_ℤ-refl (pos 0),
    number-remove_child any p a s.children hp,
    child-apart p a s.children hp c.positives,
    entries-clear p (pos 0) s.counters.childs holds_pid-childs,
  )

  reap-active :
      (q : ℤ)
      → q ≢ pos 0
      → entries q (clear p s.counters.childs_active)
        ≡ number (busy_with q) (remove_child p s.children)
  reap-active q nq = ground (
    arith,
    c.table_active q nq,
    zero-apart q nq,
    number-remove_child (busy_with q) p a s.children hp,
    entries_cleared p q s.counters.childs_active (is_busy p a) holds_pid-active,
  )

  reap-free_active :
      entries (pos 0) (clear p s.counters.childs_active)
        + number is_busy (remove_child p s.children)
      ≡ m
  reap-free_active = ground (
    arith,
    c.free_active,
    eq_ℤ-refl (pos 0),
    child-apart p a s.children hp c.positives,
    number-remove_child is_busy p a s.children hp,
    entries_cleared p (pos 0) s.counters.childs_active (is_busy p a) holds_pid-active,
  )

  -- The pool behind the removal, with what it counts written out.
  reap-Agrees : Agrees m none (reaped_pool p a s)
  unfolding reaped_pool reaped
  reap-Agrees =
      let gone = number-remove_child any p a s.children hp in
      record {
        procs =
            procs-reaped s.counters.num_procs (number any s.children)
              (number any (remove_child p s.children)) c.procs gone;
        spare =
            spare-reaped s.counters.num_spare (number is_idle s.children)
              (number is_idle (remove_child p s.children)) s.lost p a c.spare
              (number-remove_child is_idle p a s.children hp);
        within = omega (arith, c.within, gone);
        distinct =
            λ q. ground (arith, c.distinct q, number-remove_child (has_pid q) p a s.children hp);
        positives =
            ground (arith, c.positives, number-remove_child (has_pid (pos 0)) p a s.children hp);
        new = λ q. omega arith;
        table = reap-childs;
        free = reap-free;
        table_active = reap-active;
        free_active = reap-free_active;
      }

pub reap-IsConsistent :
    (m : ℕ) (s : Pool) (p : ℤ) (a : ChildPhase)
    → IsConsistent m s
    → s.unrecorded ≡ none
    → phase_of p s.children ≡ some a
    → IsConsistent m (reap p a s)
unfolding IsConsistent reap reaped_pool
reap-IsConsistent m s p a c0 hu hp =
    let c : Agrees m none s = subst (λ u. Agrees m u s) hu c0 in
    let counted = remove_active-reaped s.counters p (is_busy p a) (holds_pid-active m s c p a hp) in
    let t : Agrees m none (record s {
      counters = remove_active s.counters p;
      children = remove_child p s.children;
      lost = s.lost + (if is_claimed a then 1 else 0);
    }) =
      rw counted (reap-Agrees m s c p a hp) in
    subst (λ u. Agrees m u (reap p a s)) (sym hu) t
