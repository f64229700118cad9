-- ===== src/Tests/Pool.antt =====
-- The process pool with one child.
use spmfilter.Base.{
  ℤ, true, some, List, [], ◌∷◌, ◌+◌, ◌≡◌, refl, inr, false, arith, pos, eq_ℤ, positive,
}
use spmfilter.Settings.{settings_new}
use spmfilter.Server.{
  remove_active, holds_pid, server_fork, add_child, wants_child, decrement_spare, init_counters,
  after_wait, Counters,
}
use spmfilter.Server.Tables.{entries}
use spmfilter.Server.Refill.{wants_more, AddsUpTo, after_wait-wants_more}
use spmfilter.Server.Pool.{
  Pool, idle, claimed, initial, forked, recorded, claim, start, phase_of, set_phase, remove_child,
  reap, busy, Reachable, begin, next, fork-step, record-step, claim-step, start-step,
}
use spmfilter.Server.Pool.Counts.{number, one_if}
use spmfilter.Server.Pool.Consistent.{has_pid, IsConsistent}
use spmfilter.Server.Loop.{Wait, Act, server_loop}
use spmfilter.Server.Pool.Parent.{
  Fresh, first_forks, pool_forks, pool_turn, pool_refill, Runs, after_wait-Runs,
}
use spmfilter.Server.Pool.Serve.{
  Follows, rests, claims, Plays, exits, turns, running, killed, server_loop-kills,
}
use spmfilter.Server.Pool.Reach.{Reachable-IsConsistent}

abbrev nine : Counters
nine = record (init_counters settings_new) { num_procs = pos 9 }

after_wait-wants_more_example :
    (wants_more settings_new (after_wait 2 settings_new (λ i. pos (100 + i)) (pos 7) nine) ≡ false)
    × AddsUpTo 8 10 (after_wait 2 settings_new (λ i. pos (100 + i)) (pos 7) nine).num_procs
unfolding settings_new positive
after_wait-wants_more_example =
    after_wait-wants_more 2 8 10 settings_new (λ i. pos (100 + i)) (pos 7) nine refl refl
      (omega arith)

abbrev born : Pool
born = forked (pos 7) (initial settings_new)

abbrev known : Pool
known = recorded (pos 7) born

abbrev claiming : Pool
claiming = claim (pos 7) known

abbrev working : Pool
working = start (pos 7) claiming

born-Reachable : Reachable settings_new born
unfolding settings_new init_counters positive phase_of
born-Reachable = next _ _ begin (fork-step (initial settings_new) (pos 7) refl refl refl refl)

known-Reachable : Reachable settings_new known
unfolding forked
known-Reachable = next _ _ born-Reachable (record-step born (pos 7) refl)

working-Reachable : Reachable settings_new working
unfolding forked recorded claim phase_of set_phase eq_ℤ
working-Reachable =
    next _ _ (next _ _ known-Reachable (claim-step known (pos 7) refl))
      (start-step claiming (pos 7) refl)

Reachable-IsConsistent_example : IsConsistent 10 working
unfolding settings_new
Reachable-IsConsistent_example =
    Reachable-IsConsistent 10 settings_new working refl working-Reachable

after_wait-Runs_example :
    Runs settings_new
      (pool_turn 1 settings_new (λ i. pos (100 + i)) (pos 7) working)
      (after_wait 1 settings_new (λ i. pos (100 + i)) (pos 7) working.counters)
unfolding forked recorded claim start phase_of set_phase remove_child positive eq_ℤ
after_wait-Runs_example =
    after_wait-Runs settings_new 1 (λ i. pos (100 + i)) (pos 7) working working-Reachable refl
      (inr (busy, refl)) (refl, (refl, tt))

-- A server that forks two children, whose first child takes a client and whose second one ends, before
-- it is told to stop.
abbrev first_two : Pool
first_two = pool_forks (first_forks 2) (λ i. pos (100 + i)) (initial settings_new)

abbrev taking : Pool
taking = claim (pos 100) first_two

abbrev ended : Wait
ended = record { seen = decrement_spare; exits = false; pid = pos 101; forks = λ i. pos (200 + i) }

abbrev told : Wait
told = record { seen = λ c. c; exits = true; pid = pos 100; forks = λ i. pos (300 + i) }

abbrev left : Pool
left = pool_turn 10 settings_new (λ i. pos (200 + i)) (pos 101) taking

new_pids : Fresh (first_forks 2) (λ i. pos (100 + i)) []
unfolding positive phase_of eq_ℤ
new_pids = (refl, (refl, (refl, (refl, tt))))

first_claims : Follows first_two taking
unfolding pool_forks forked recorded phase_of eq_ℤ
first_claims = claims first_two (pos 100) rests refl

later_pids : Fresh 10 (λ i. pos (200 + i)) (remove_child (pos 101) taking.children)
unfolding pool_forks forked recorded claim set_phase remove_child positive phase_of eq_ℤ
later_pids =
    ((
      refl,
      (
        refl,
        (
          refl,
          (
            refl,
            (
              refl,
              (
                refl,
                (
                  refl,
                  (
                    refl,
                    (
                      refl,
                      (
                        refl,
                        (
                          refl,
                          (
                            refl,
                            (refl, (refl, (refl, (refl, (refl, (refl, (refl, (refl, tt)))))))),
                          ),
                        ),
                      ),
                    ),
                  ),
                ),
              ),
            ),
          ),
        ),
      ),
    ))

-- The last wait returns the child that has taken the client: it has ended, and is sent SIGTERM.
two_waits : Plays 10 settings_new (ended ∷ told ∷ []) first_two left (pos 100)
unfolding claim pool_forks forked recorded remove_child set_phase positive phase_of eq_ℤ pool_turn
    pool_refill reap remove_active holds_pid decrement_spare server_fork add_child init_counters
    settings_new wants_child
two_waits =
    turns ended (told ∷ []) first_two taking left (pos 100) first_claims refl refl
      (inr (idle, refl)) later_pids (exits told [] left left rests refl refl (inr (claimed, refl)))

server_loop-kills_example :
    (acts : List Act) × ((server_loop settings_new (λ i. pos (100 + i)) (ended ∷ told ∷ [])
        ≡ some acts)
      × ((p : ℤ)
          → positive p ≡ true
          → entries p (killed acts)
            ≡ number (has_pid p) (running (pos 100) left.children) + one_if (eq_ℤ (pos 100) p)))
unfolding settings_new
server_loop-kills_example =
    server_loop-kills settings_new 10 2 (λ i. pos (100 + i)) (ended ∷ told ∷ []) left (pos 100) refl
      refl (omega arith) new_pids two_waits
