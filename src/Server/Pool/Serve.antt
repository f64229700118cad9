-- ===== src/Server/Pool/Serve.antt =====
-- The whole of `smf_server_loop`, with the children that run beside it.
use spmfilter.Base.{
  to_ℕ, ℕ, ◌≤◌, ◌≡◌, refl, sym, ap, ◌∙◌, true, false, none, some, List, [], ◌∷◌, ◌++◌, map,
  if◌then◌else◌, ◌+◌, inl, inr, arith, eq_ℤ, eq_ℤ_iff, false, Bool-cases, ℤ, pos, positive,
}
use spmfilter.Settings.{Settings}
use spmfilter.Server.{Counters, init_counters, prefork, terminated}
use spmfilter.Server.Tables.{entries}
use spmfilter.Server.Loop.{
  Wait, wait_loop, Act, kill, wait_children, close_semaphore, unlink_semaphore, unlink_memory,
  unlink_file, stop, server_loop,
}
use spmfilter.Server.Pool.{
  Child, idle, claimed, Pool, initial, phase_of, remove_child, claim, start, claim-step, start-step,
  Reachable, next,
}
use spmfilter.Server.Pool.Counts.{number, one_if, number-remove_child}
use spmfilter.Server.Pool.Consistent.{has_pid}
use spmfilter.Server.Pool.Reach.{Reachable-terminated}
use spmfilter.Server.Pool.Parent.{
  Fresh, first_forks, pool_forks, pool_turn, Runs, IsWaited, prefork-Runs, after_wait-Runs,
}

-- The children act, in any order, while the parent waits.
pub data Follows (s : Pool) : Pool → Type 0 where
  rests : Follows s s
  claims :
      (t : Pool) (p : ℤ) → Follows s t → phase_of p t.children ≡ some idle → Follows s (claim p t)
  starts :
      (t : Pool) (p : ℤ)
      → Follows s t
      → phase_of p t.children ≡ some claimed
      → Follows s (start p t)

-- The children that there are when `waitpid` has returned `pid`, which is that of a child or no pid.
abbrev pub running : ℤ → List Child → List Child
running pid xs = if positive pid then remove_child pid xs else xs

-- The returns of `waitpid` that lead from a pool to the one in which `daemon_exit` is seen, and the pid
-- that the last of them returns: the counters change as the children change them, a pid is that of a
-- child, and `fork` gives new ones.
pub data Plays (f : ℕ) (st : Settings) : List Wait → Pool → Pool → ℤ → Type 0 where
  exits :
      (w : Wait) (ws : List Wait) (s t : Pool)
      → Follows s t
      → w.seen s.counters ≡ t.counters
      → w.exits ≡ true
      → IsWaited w.pid t.children
      → Plays f st (w ∷ ws) s t w.pid
  turns :
      (w : Wait) (ws : List Wait) (s t z : Pool) (last : ℤ)
      → Follows s t
      → w.seen s.counters ≡ t.counters
      → w.exits ≡ false
      → IsWaited w.pid t.children
      → Fresh f w.forks (running w.pid t.children)
      → Plays f st ws (pool_turn f st w.forks w.pid t) z last
      → Plays f st (w ∷ ws) s z last

-- The pids that are sent SIGTERM.
unfoldable pub killed : List Act → List ℤ
killed [] = []
killed (kill p ∷ acts) = p ∷ killed acts
killed (_ ∷ acts) = killed acts

killed-stop : (st : Settings) (c : Counters) → killed (stop st c) ≡ terminated c.childs
unfolding killed stop
killed-stop st c = kills (terminated c.childs)
  where
    rest : List Act
    rest =
        wait_children
        ∷ close_semaphore
        ∷ unlink_semaphore
        ∷ unlink_memory
        ∷ unlink_file st.pid_file
        ∷ []

    kills : (ps : List ℤ) → killed (map kill ps ++ rest) ≡ ps
    kills [] = refl
    kills (p ∷ ps) = ap (λ x. p ∷ x) (kills ps)

module _ (st : Settings) where
  Follows-Reachable :
      (s t : Pool)
      → Reachable st s
      → s.unrecorded ≡ none
      → Follows s t
      → Reachable st t × (t.unrecorded ≡ none)
  unfolding claim start
  Follows-Reachable s _ r u rests = (r, u)
  Follows-Reachable s _ r u (claims t p f h) =
      let (r1, u1) = Follows-Reachable s t r u f in (next t (claim p t) r1 (claim-step t p h), u1)
  Follows-Reachable s _ r u (starts t p f h) =
      let (r1, u1) = Follows-Reachable s t r u f in (next t (start p t) r1 (start-step t p h), u1)

  -- The loop ends with the counters of the pool in which it ends.
  wait_loop-Runs :
      (f : ℕ) (waits : List Wait) (s z : Pool) (last : ℤ)
      → Plays f st waits s z last
      → Reachable st s
      → s.unrecorded ≡ none
      → Reachable st z
        × ((z.unrecorded ≡ none) × (wait_loop f st waits s.counters ≡ some z.counters))
  unfolding wait_loop Runs
  wait_loop-Runs f _ _ _ _ (exits w ws s t h e x waited) r u =
      let (r1, u1) = Follows-Reachable s t r u h in (r1, (u1, rw x (ap some e)))
  wait_loop-Runs f _ _ _ _ (turns w ws s t z last h e x waited fresh later) r u =
      let (r1, u1) = Follows-Reachable s t r u h in
      let (r2, (u2, c2)) = after_wait-Runs st f w.forks w.pid t r1 u1 waited fresh in
      let (r3, (u3, c3)) =
        wait_loop-Runs f ws (pool_turn f st w.forks w.pid t) z last later r2 u2 in
      (r3, (u3, rw (x, e) (ap (wait_loop f st ws) (sym c2) ∙ c3)))

  -- The last wait has returned no pid or that of a child.
  last-IsWaited :
      (f : ℕ) (waits : List Wait) (s z : Pool) (last : ℤ)
      → Plays f st waits s z last
      → IsWaited last z.children
  last-IsWaited f _ _ _ _ (exits w ws s t h e x waited) = waited
  last-IsWaited f _ _ _ _ (turns w ws s t z last h e x waited fresh later) =
      last-IsWaited f ws _ z last later

  no_pid : (last p : ℤ) → positive last ≡ false → positive p ≡ true → eq_ℤ last p ≡ false
  no_pid last p n h = elim (Bool-cases (eq_ℤ last p)) [
    | inr m ↦ m
    | inl y ↦
        let same : last ≡ p = (eq_ℤ_iff last p).0 y in absurd (ground (arith, ap positive same))
  ]

  -- A child that the last wait has returned is one more than those that run.
  number-running :
      (last p : ℤ) (xs : List Child)
      → positive p ≡ true
      → IsWaited last xs
      → number (has_pid p) xs ≡ number (has_pid p) (running last xs) + one_if (eq_ℤ last p)
  number-running last p xs h waited = elim (Bool-cases (positive last)) [
    | inr n ↦ let apart : eq_ℤ last p ≡ false = no_pid last p n h in rw (n, apart) omega arith
    | inl y ↦ elim waited [
      | inl n ↦ absurd (ground arith)
      | inr (a, found) ↦ rw y (sym (number-remove_child (has_pid p) last a xs found))
    ]
  ]

  -- `smf_server_loop` returns, however its children act while it waits, as soon as a wait finds
  -- `daemon_exit` set. It sends SIGTERM to a pid as often as it is that of a child that still runs
  -- then, and once to the pid that this last wait has returned, whose child has ended; it sends it
  -- to no other. `max_childs` leaves room for the first children, `waitpid` returns no pid or that
  -- of a child, and each `fork` gives a new pid.
  pub server_loop-kills :
      (m n : ℕ) (forks : ℕ → ℤ) (waits : List Wait) (z : Pool) (last : ℤ)
      → st.max_childs ≡ pos m
      → st.spare_childs ≡ pos n
      → first_forks n ≤ m
      → Fresh (first_forks n) forks []
      → Plays m st waits (pool_forks (first_forks n) forks (initial st)) z last
      → (acts : List Act) × ((server_loop st forks waits ≡ some acts)
          × ((p : ℤ)
              → positive p ≡ true
              → entries p (killed acts)
                ≡ number (has_pid p) (running last z.children) + one_if (eq_ℤ last p)))
  unfolding server_loop Runs
  server_loop-kills m n forks waits z last hm hn le fresh plays =
      let first = pool_forks (first_forks n) forks (initial st) in
      let (r, (u, c)) = prefork-Runs st m n forks hm hn le fresh in
      let (r1, (u1, e)) = wait_loop-Runs m waits first z last plays r u in
      let ends : wait_loop (to_ℕ st.max_childs) st waits (prefork st forks (init_counters st))
          ≡ some z.counters =
        ap (λ x. wait_loop (to_ℕ x) st waits (prefork st forks (init_counters st))) hm
        ∙ (ap (wait_loop m st waits) (sym c) ∙ e) in
      (
        stop st z.counters,
        (
          rw (ends, server_loop) refl,
          λ p h.
              ap (entries p) (killed-stop st z.counters)
              ∙ (Reachable-terminated m st z p hm r1 u1 h
                  ∙ number-running last p z.children h (last-IsWaited m waits first z last plays)),
        ),
      )
