-- ===== src/Server/Pool/Children.antt =====
-- What a child's steps leave of the counters' agreement.
use spmfilter.Base.{
  dec, diff, eq_ℤ-refl, dec-diff, ℕ, suc, ◌+◌, ◌<◌, ◌≡◌, refl, false, some, List, arith, ℤ, pos,
  eq_ℤ,
}
use spmfilter.Server.{decrement_spare, add_active}
use spmfilter.Server.Tables.{entries, entries-put_free}
use spmfilter.Server.Pool.{
  ChildPhase, Child, idle, claimed, busy, Pool, phase_of, set_phase, claim, start,
}
use spmfilter.Server.Pool.Consistent.{
  is_idle, is_busy, has_pid, busy_with, shift, IsConsistent, zero-apart,
}
use spmfilter.Server.Pool.Counts.{number, number-le, number-set_phase, number-remove_child, any}

any-set_phase :
    (p : ℤ) (a b : ChildPhase) (xs : List Child)
    → phase_of p xs ≡ some a
    → number any (set_phase p b xs) ≡ number any xs
any-set_phase p a b xs h = ground (arith, number-set_phase any p a b xs h)

pid-set_phase :
    (q p : ℤ) (a b : ChildPhase) (xs : List Child)
    → phase_of p xs ≡ some a
    → number (has_pid q) (set_phase p b xs) ≡ number (has_pid q) xs
pid-set_phase q p a b xs h = ground (arith, number-set_phase (has_pid q) p a b xs h)

pub child-apart :
    (p : ℤ) (a : ChildPhase) (xs : List Child)
    → phase_of p xs ≡ some a
    → number (has_pid (pos 0)) xs ≡ 0
    → eq_ℤ p (pos 0) ≡ false
child-apart p a xs h z = ground (arith, number-remove_child (has_pid (pos 0)) p a xs h)

dec_spare : (x : ℤ) (i j l : ℕ) → x ≡ diff i l → j + 1 ≡ i + 0 → dec x ≡ diff j l
dec_spare x i j l h e = let ei : i ≡ suc j = omega arith in rw (h, ei) (dec-diff j l)

module _ (m : ℕ) where
  pub claim-IsConsistent :
      (s : Pool) (p : ℤ)
      → IsConsistent m s
      → phase_of p s.children ≡ some idle
      → IsConsistent m (claim p s)
  unfolding claim decrement_spare IsConsistent
  claim-IsConsistent s p c hp =
      let same = any-set_phase p idle claimed s.children hp in
      let pids : (q : ℤ)
          → number (has_pid q) (set_phase p claimed s.children) ≡ number (has_pid q) s.children =
        λ q. pid-set_phase q p idle claimed s.children hp in
      record {
        procs = rw same c.procs;
        spare =
            dec_spare s.counters.num_spare (number is_idle s.children)
              (number is_idle (set_phase p claimed s.children)) (shift s.unrecorded s.lost) c.spare
              (number-set_phase is_idle p idle claimed s.children hp);
        within = rw same c.within;
        distinct = λ q. rw (pids q) (c.distinct q);
        positives = rw (pids (pos 0)) c.positives;
        new = λ q. rw (pids q) (c.new q);
        table = λ q nq. rw (pids q) (c.table q nq);
        free = rw same c.free;
        table_active = λ q nq. ground (
          arith,
          c.table_active q nq,
          number-set_phase (busy_with q) p idle claimed s.children hp,
        );
        free_active =
            ground (arith, c.free_active, number-set_phase is_busy p idle claimed s.children hp);
      }

  pub start-IsConsistent :
      (s : Pool) (p : ℤ)
      → IsConsistent m s
      → phase_of p s.children ≡ some claimed
      → IsConsistent m (start p s)
  unfolding start add_active IsConsistent
  start-IsConsistent s p c hp =
      let xs' = set_phase p busy s.children in
      let same = any-set_phase p claimed busy s.children hp in
      let pids : (q : ℤ) → number (has_pid q) xs' ≡ number (has_pid q) s.children =
        λ q. pid-set_phase q p claimed busy s.children hp in
      let apart = child-apart p claimed s.children hp c.positives in
      let more = number-set_phase is_busy p claimed busy s.children hp in
      let room : 0 < entries (pos 0) s.counters.childs_active =
        omega (arith, c.free_active, c.within, more, number-le is_busy any xs' (λ _ _ _. refl)) in
      record {
        procs = rw same c.procs;
        spare = ground (arith, c.spare, number-set_phase is_idle p claimed busy s.children hp);
        within = rw same c.within;
        distinct = λ q. rw (pids q) (c.distinct q);
        positives = rw (pids (pos 0)) c.positives;
        new = λ q. rw (pids q) (c.new q);
        table = λ q nq. rw (pids q) (c.table q nq);
        free = rw same c.free;
        table_active = λ q nq. ground (
          arith,
          c.table_active q nq,
          zero-apart q nq,
          number-set_phase (busy_with q) p claimed busy s.children hp,
          entries-put_free p q s.counters.childs_active apart room,
        );
        free_active = ground (
          arith,
          c.free_active,
          more,
          eq_ℤ-refl (pos 0),
          entries-put_free p (pos 0) s.counters.childs_active apart room,
        );
      }
