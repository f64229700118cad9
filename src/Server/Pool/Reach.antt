-- ===== src/Server/Pool/Reach.antt =====
-- What the counters say of the children after any steps.
use spmfilter.Base.{
  lt_ℤ, eq_ℤ-refl, ℕ, zero, suc, ◌≡◌, refl, ◌≢◌, true, none, arith, if◌then◌else◌, replicate, ℤ,
  pos, eq_ℤ, positive,
}
use spmfilter.Settings.{Settings}
use spmfilter.Server.{init_counters, terminated}
use spmfilter.Server.Tables.{entries, entries-terminated}
use spmfilter.Server.Pool.{
  Pool, initial, Step, fork-step, record-step, claim-step, start-step, reap-step, Reachable, begin,
  next,
}
use spmfilter.Server.Pool.Counts.{number}
use spmfilter.Server.Pool.Consistent.{
  has_pid, Agrees, IsConsistent, forked-IsConsistent, recorded-IsConsistent, zero-apart,
}
use spmfilter.Server.Pool.Children.{claim-IsConsistent, start-IsConsistent}
use spmfilter.Server.Pool.Reap.{reap-IsConsistent}
use mathlib.Core.Path.{subst}

entries-replicate :
    (p : ℤ) (n : ℕ) → entries p (replicate n (pos 0)) ≡ (if eq_ℤ (pos 0) p then n else 0)
unfolding entries
entries-replicate p zero = ground arith
entries-replicate p (suc n) = ground (arith, entries-replicate p n)

initial-IsConsistent : (m : ℕ) (st : Settings) → st.max_childs ≡ pos m → IsConsistent m (initial st)
unfolding IsConsistent init_counters number
initial-IsConsistent m st h = record {
  procs = refl;
  spare = refl;
  within = omega arith;
  distinct = λ q. omega arith;
  positives = refl;
  new = λ q. omega arith;
  table = λ q nq. rw h ground (arith, entries-replicate q m, zero-apart q nq);
  free = rw h ground (arith, entries-replicate (pos 0) m, eq_ℤ-refl (pos 0));
  table_active = λ q nq. rw h ground (arith, entries-replicate q m, zero-apart q nq);
  free_active = rw h ground (arith, entries-replicate (pos 0) m, eq_ℤ-refl (pos 0));
}

Step-IsConsistent :
    (m : ℕ) (st : Settings) (s t : Pool)
    → st.max_childs ≡ pos m
    → Step st s t
    → IsConsistent m s
    → IsConsistent m t
Step-IsConsistent m st _ _ h (fork-step s p hu hl hp hn) c =
    forked-IsConsistent m s p c hu (subst (λ x. lt_ℤ s.counters.num_procs x ≡ true) h hl) hp hn
Step-IsConsistent m st _ _ h (record-step s p hu) c = recorded-IsConsistent m s p c hu
Step-IsConsistent m st _ _ h (claim-step s p hp) c = claim-IsConsistent m s p c hp
Step-IsConsistent m st _ _ h (start-step s p hp) c = start-IsConsistent m s p c hp
Step-IsConsistent m st _ _ h (reap-step s p a hu hp) c = reap-IsConsistent m s p a c hu hp

-- After any steps of the parent and its children, in any order, where every fork that returns gives a new
-- positive pid and the parent forks below max_childs: num_procs is the number of children that are
-- recorded; num_spare is the number of idle children, less one for a fork that is not recorded yet and
-- one for each child that was removed between its two calls; there are never more children than
-- max_childs; each pid is one child's, the table `childs` holds exactly the recorded ones and
-- `childs_active` exactly the busy ones, with all other entries free.
pub Reachable-IsConsistent :
    (m : ℕ) (st : Settings) (s : Pool) → st.max_childs ≡ pos m → Reachable st s → IsConsistent m s
Reachable-IsConsistent m st _ h begin = initial-IsConsistent m st h
Reachable-IsConsistent m st _ h (next s t r x) =
    Step-IsConsistent m st s t h x (Reachable-IsConsistent m st s h r)

positive-nonzero : (p : ℤ) → positive p ≡ true → p ≢ pos 0
unfolding positive
positive-nonzero p h e = ground arith

-- In a pool that any steps lead to, with no `fork` that the parent has yet to record, the children that
-- `smf_server_loop` sends SIGTERM when it stops are the child processes, each of them once: no child is
-- left out, and no process that was removed is hit.
pub Reachable-terminated :
    (m : ℕ) (st : Settings) (s : Pool) (p : ℤ)
    → st.max_childs ≡ pos m
    → Reachable st s
    → s.unrecorded ≡ none
    → positive p ≡ true
    → entries p (terminated s.counters.childs) ≡ number (has_pid p) s.children
unfolding IsConsistent
Reachable-terminated m st s p h r hu hp =
    let c : Agrees m none s = subst (λ u. Agrees m u s) hu (Reachable-IsConsistent m st s h r) in
    ground (arith, entries-terminated p s.counters.childs hp, c.table p (positive-nonzero p hp))
