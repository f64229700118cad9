-- ===== src/Server/Pool/Parent.antt =====
-- The loops of the parent in `smf_server_loop` as steps of the pool.
use mathlib.Core.Path.{subst}
use spmfilter.Base.{
  lt_ℤ, to_ℕ, ℕ, zero, suc, ◌+◌, ◌≤◌, ◌≡◌, refl, sym, ap, ◌⊎◌, inl, inr, true, false, none, some,
  List, [], ◌∷◌, if◌then◌else◌, ◌&&◌, arith, Bool-cases, ℤ, pos, eq_ℤ, positive,
}
use spmfilter.Settings.{Settings}
use spmfilter.Server.{
  Counters, init_counters, server_fork, add_child, wants_child, refill, prefork_loop, prefork,
  after_wait,
}
use spmfilter.Server.Pool.{
  ChildPhase, idle, Child, child, Pool, initial, phase_of, remove_child, forked, recorded, reap,
  fork-step, record-step, reap-step, Reachable, begin, next,
}

-- What the next `n` calls of `fork` return is positive, and neither the pid of a child nor one that
-- an earlier call has returned.
abbrev pub Fresh : ℕ → (ℕ → ℤ) → List Child → Type 0
Fresh zero pids cs = Unit
Fresh (suc n) pids cs =
    (positive (pids 0) ≡ true)
    × ((phase_of (pids 0) cs ≡ none) × Fresh n (λ i. pids (i + 1)) (child (pids 0) idle ∷ cs))

-- How many children are forked first.
abbrev pub first_forks : ℕ → ℕ
first_forks zero = 1
first_forks (suc n) = suc n

first_turns :
    (n : ℕ) (spare : ℤ) (pids : ℕ → ℤ) (c : Counters)
    → spare ≡ pos n
    → (if eq_ℤ spare (pos 0) then server_fork c (pids 0) else prefork_loop (to_ℕ spare) pids c)
      ≡ prefork_loop (first_forks n) pids c
unfolding prefork_loop eq_ℤ
first_turns zero spare pids c h = rw h refl
first_turns (suc n) spare pids c h = rw h ground arith

-- What calls of `smf_server_fork` make of the pool.
unfoldable pub pool_forks : ℕ → (ℕ → ℤ) → Pool → Pool
pool_forks zero pids s = s
pool_forks (suc n) pids s = pool_forks n (λ i. pids (i + 1)) (recorded (pids 0) (forked (pids 0) s))

-- The inner loop of the parent, and a turn of the outer one, on the pool.
unfoldable pub pool_refill : ℕ → Settings → (ℕ → ℤ) → Pool → Pool
pool_refill zero st pids s = s
pool_refill (suc f) st pids s =
    let more = pool_refill f st (λ i. pids (i + 1)) (recorded (pids 0) (forked (pids 0) s)) in
    if lt_ℤ s.counters.num_procs st.max_childs && wants_child st s.counters then more else s

abbrev pub reaped : ℤ → Pool → Pool
reaped pid s = elim (phase_of pid s.children) [ none ↦ s | some a ↦ reap pid a s ]

unfoldable pub pool_turn : ℕ → Settings → (ℕ → ℤ) → ℤ → Pool → Pool
pool_turn f st pids pid s = pool_refill f st pids (if positive pid then reaped pid s else s)

-- The steps lead to the pool, which is between two calls of `fork` and has these counters.
unfoldable pub Runs : Settings → Pool → Counters → Type 0
Runs st t c = Reachable st t × ((t.unrecorded ≡ none) × (t.counters ≡ c))

-- `waitpid` has returned no pid, or that of a child.
abbrev pub IsWaited : ℤ → List Child → Type 0
IsWaited pid cs = (positive pid ≡ false) ⊎ ((a : ChildPhase) × (phase_of pid cs ≡ some a))

module _ (st : Settings) where
  -- A call of `smf_server_fork` is two steps.
  server_fork-Reachable :
      (s : Pool) (p : ℤ)
      → Reachable st s
      → s.unrecorded ≡ none
      → lt_ℤ s.counters.num_procs st.max_childs ≡ true
      → positive p ≡ true
      → phase_of p s.children ≡ none
      → Reachable st (recorded p (forked p s))
  unfolding forked
  server_fork-Reachable s p r u l h n =
      next (forked p s) (recorded p (forked p s)) (next s (forked p s) r (fork-step s p u l h n))
        (record-step (forked p s) p refl)

  refill-Runs :
      (f : ℕ) (pids : ℕ → ℤ) (s : Pool)
      → Reachable st s
      → s.unrecorded ≡ none
      → Fresh f pids s.children
      → Runs st (pool_refill f st pids s) (refill f st pids s.counters)
  unfolding refill pool_refill Runs forked recorded
  refill-Runs zero pids s r u fresh = (r, (u, refl))
  refill-Runs (suc f) pids s r u (h, (n, later)) =
      elim (Bool-cases (lt_ℤ s.counters.num_procs st.max_childs)) [
        | inr full ↦ rw full (r, (u, refl))
        | inl room ↦ elim (Bool-cases (wants_child st s.counters)) [
          | inr enough ↦ rw (room, enough) (r, (u, refl))
          | inl more ↦
              rw (room, more)
                (refill-Runs f (λ i. pids (i + 1)) (recorded (pids 0) (forked (pids 0) s))
                  (server_fork-Reachable s (pids 0) r u room h n) refl later)
        ]
      ]

  prefork_loop-Runs :
      (m k n : ℕ) (pids : ℕ → ℤ) (s : Pool)
      → st.max_childs ≡ pos m
      → s.counters.num_procs ≡ pos k
      → k + n ≤ m
      → Reachable st s
      → s.unrecorded ≡ none
      → Fresh n pids s.children
      → Runs st (pool_forks n pids s) (prefork_loop n pids s.counters)
  unfolding prefork_loop pool_forks Runs forked recorded server_fork add_child
  prefork_loop-Runs m k zero pids s hm hk le r u fresh = (r, (u, refl))
  prefork_loop-Runs m k (suc n) pids s hm hk le r u (h, (apart, later)) =
      let room : lt_ℤ s.counters.num_procs st.max_childs ≡ true = rw (hm, hk) ground arith in
      prefork_loop-Runs m (k + 1) n (λ i. pids (i + 1)) (recorded (pids 0) (forked (pids 0) s)) hm
        (rw hk (ap pos (omega arith))) (omega arith)
        (server_fork-Reachable s (pids 0) r u room h apart) refl later

  -- What `smf_server_loop` forks before its first wait, one child at least, leads to a pool of the
  -- steps with the counters that the code computes, where `max_childs` leaves room for these children
  -- and each `fork` gives a new pid.
  pub prefork-Runs :
      (m n : ℕ) (pids : ℕ → ℤ)
      → st.max_childs ≡ pos m
      → st.spare_childs ≡ pos n
      → first_forks n ≤ m
      → Fresh (first_forks n) pids []
      → Runs st (pool_forks (first_forks n) pids (initial st)) (prefork st pids (init_counters st))
  unfolding prefork init_counters
  prefork-Runs m n pids hm hn le fresh =
      subst (Runs st (pool_forks (first_forks n) pids (initial st)))
        (sym (first_turns n st.spare_childs pids (init_counters st) hn))
        (prefork_loop-Runs m 0 (first_forks n) pids (initial st) hm refl (omega arith) begin refl
          fresh)

  -- A turn of the outer loop of `smf_server_loop` behind `waitpid` leads from a pool of the steps to one
  -- with the counters that the code computes, whatever the children have done before the turn, where
  -- `waitpid` returns no pid or that of a child and each `fork` gives a new pid.
  pub after_wait-Runs :
      (f : ℕ) (pids : ℕ → ℤ) (pid : ℤ) (s : Pool)
      → Reachable st s
      → s.unrecorded ≡ none
      → IsWaited pid s.children
      → Fresh f pids (if positive pid then remove_child pid s.children else s.children)
      → Runs st (pool_turn f st pids pid s) (after_wait f st pids pid s.counters)
  unfolding after_wait pool_turn reap
  after_wait-Runs f pids pid s r u w fresh = elim (Bool-cases (positive pid)) [
    | inr not_one ↦ rw not_one (
        refill-Runs f pids s r u (
          subst (λ b. Fresh f pids (if b then remove_child pid s.children else s.children)) not_one
            fresh))
    | inl one ↦ elim w [
      | inl other ↦ absurd (cc)
      | inr (a, h) ↦
          rw (one, h, reaped)
            (refill-Runs f pids (reap pid a s) (next s (reap pid a s) r (reap-step s pid a u h)) u (
              subst (λ b. Fresh f pids (if b then remove_child pid s.children else s.children)) one
                fresh))
    ]
  ]
