-- ===== src/Server/Loop.antt =====
-- `smf_server_loop` of src/smf_server.c, from the first forks to its end, compiled for POSIX semaphores,
-- the handler of its signals, and the loop of a child, `smf_server_accept_handler`.
use spmfilter.Base.{
  to_ℕ, ℕ, Bool, Option, none, some, List, [], ◌∷◌, ◌++◌, map, if◌then◌else◌, Bytes, ℤ, true, false,
  length, ◌≤◌, arith,
}
use spmfilter.Settings.{Settings}
use spmfilter.Server.Start.{Signal, sigterm, sigint}
use spmfilter.Server.{Counters, init_counters, prefork, after_wait, terminated}

-- A return of `waitpid`: what has become of the counters until then, whether `daemon_exit` is set, the
-- pid, and what the calls of `fork` in this turn return.
pub record Wait : Type 0 where
  pub seen : Counters → Counters
  pub exits : Bool
  pub pid : ℤ
  pub forks : ℕ → ℤ

-- The outer loop, up to the wait that finds `daemon_exit`; none while it waits for another return.
unfoldable pub wait_loop : ℕ → Settings → List Wait → Counters → Option Counters
wait_loop f st [] c = none
wait_loop f st (w ∷ ws) c =
    let found = w.seen c in
    let later = wait_loop f st ws (after_wait f st w.forks w.pid found) in
    if w.exits then some found else later

-- The calls behind the loop.
pub data Act : Type 0 where
  close_socket : Act
  kill : ℤ → Act
  wait_children : Act
  close_semaphore : Act
  unlink_semaphore : Act
  unlink_memory : Act
  unlink_file : Option Bytes → Act

unfoldable pub stop : Settings → Counters → List Act
stop st c =
    close_socket ∷ map kill (terminated c.childs)
    ++ wait_children
      ∷ close_semaphore
      ∷ unlink_semaphore
      ∷ unlink_memory
      ∷ unlink_file st.pid_file
      ∷ []

-- No turn forks more than max_childs children, which is enough fuel for its inner loop.
unfoldable pub server_loop : Settings → (ℕ → ℤ) → List Wait → Option (List Act)
server_loop st forks waits =
    elim (wait_loop (to_ℕ st.max_childs) st waits (prefork st forks (init_counters st))) [
      | none ↦ none
      | some c ↦ some (stop st c)
    ]

-- `smf_server_sig_handler`, on the flag `daemon_exit`.
unfoldable pub sig_handler : Signal → Bool → Bool
sig_handler sigterm daemon_exit = true
sig_handler sigint daemon_exit = true
sig_handler _ daemon_exit = daemon_exit

-- A return of `accept`: a client, EINTR, or another error, with `daemon_exit` at that time.
pub data Accepted : Type 0 where
  client : ℕ → Accepted
  disturbed : Bool → Accepted
  refused : Bool → Accepted

-- How a child leaves `smf_server_accept_handler`: the handler of a client has ended the process, or
-- `daemon_exit` is set, or it still waits.
pub data Left : Type 0 where
  by_handler : Left
  by_exit : Left
  not_yet : Left

-- The loop, for a handler that returns or ends the process: the clients that it is called for.
unfoldable pub accept_handler : (ℕ → Bool) → List Accepted → List ℕ × Left
accept_handler returns [] = ([], not_yet)
accept_handler returns (client fd ∷ rest) =
    let (clients, left) = accept_handler returns rest in
    if returns fd then (fd ∷ clients, left) else (fd ∷ [], by_handler)
accept_handler returns (disturbed daemon_exit ∷ rest) =
    let later = accept_handler returns rest in if daemon_exit then ([], by_exit) else later
accept_handler returns (refused daemon_exit ∷ rest) =
    let later = accept_handler returns rest in if daemon_exit then ([], by_exit) else later

-- A child whose handler ends the process serves one client at most.
pub accept_handler_one :
    (accepts : List Accepted) → length (accept_handler (λ fd. false) accepts).0 ≤ 1
unfolding accept_handler
accept_handler_one [] = omega arith
accept_handler_one (client fd ∷ rest) = omega arith
accept_handler_one (disturbed daemon_exit ∷ rest) = ground (arith, accept_handler_one rest)
accept_handler_one (refused daemon_exit ∷ rest) = ground (arith, accept_handler_one rest)
