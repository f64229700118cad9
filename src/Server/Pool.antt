-- ===== src/Server/Pool.antt =====
-- The pool as a whole: the counters beside the child processes, and the steps of the parent and of its
-- children, in any order.
pub mod Counts
pub mod Consistent
pub mod Children
pub mod Reap
pub mod Reach
pub mod Parent
pub mod Serve
use spmfilter.Base.{
  dec, lt_ℤ, ℕ, ◌+◌, ◌-◌, ◌≡◌, ap, Bool, true, false, not, Option, none, some, List, [], ◌∷◌,
  if◌then◌else◌, set, ℤ, pos, eq_ℤ, positive,
}
use spmfilter.Settings.{Settings}
use spmfilter.Server.{
  Counters, init_counters, server_fork, decrement_spare, add_active, remove_active,
}

-- Before accept returns, between the two calls of `smf_smtpd_handle_client`, and behind them.
pub data ChildPhase : Type 0 where
  idle : ChildPhase
  claimed : ChildPhase
  busy : ChildPhase

pub data Child : Type 0 where
  child : ℤ → ChildPhase → Child

-- `unrecorded`: what `fork` returned, if `_smf_server_add_child` has yet to run. `lost`: how many children
-- were removed that had run `smf_server_decrement_spare` but not `smf_server_add_active`.
pub record Pool : Type 0 where
  pub counters : Counters
  pub children : List Child
  pub unrecorded : Option ℤ
  pub lost : ℕ

unfoldable pub phase_of : ℤ → List Child → Option ChildPhase
phase_of p [] = none
phase_of p (child q a ∷ xs) = if eq_ℤ q p then some a else phase_of p xs

unfoldable pub set_phase : ℤ → ChildPhase → List Child → List Child
set_phase p b [] = []
set_phase p b (child q a ∷ xs) =
    let later = child q a ∷ set_phase p b xs in if eq_ℤ q p then child q b ∷ xs else later

unfoldable pub remove_child : ℤ → List Child → List Child
remove_child p [] = []
remove_child p (child q a ∷ xs) =
    let later = child q a ∷ remove_child p xs in if eq_ℤ q p then xs else later

unfoldable pub is_claimed : ChildPhase → Bool
is_claimed claimed = true
is_claimed _ = false

abbrev pub initial : Settings → Pool
initial st = record { counters = init_counters st; children = []; unrecorded = none; lost = 0 }

-- What `fork` adds, before the parent goes on.
unfoldable pub forked : ℤ → Pool → Pool
forked p s = record s { children = child p idle ∷ s.children; unrecorded = some p }

unfoldable pub recorded : ℤ → Pool → Pool
recorded p s = record s { counters = server_fork s.counters p; unrecorded = none }

unfoldable pub claim : ℤ → Pool → Pool
claim p s = record s {
  counters = decrement_spare s.counters;
  children = set_phase p claimed s.children;
}

unfoldable pub start : ℤ → Pool → Pool
start p s = record s { counters = add_active s.counters p; children = set_phase p busy s.children }

-- `waitpid` returned the pid.
unfoldable pub reap : ℤ → ChildPhase → Pool → Pool
reap p a s = record s {
  counters = remove_active s.counters p;
  children = remove_child p s.children;
  lost = s.lost + (if is_claimed a then 1 else 0);
}

-- The parent forks below max_childs only and records a child before it goes on; a child may claim a
-- client before it is recorded.
pub data Step (st : Settings) : Pool → Pool → Type 0 where
  fork-step :
      (s : Pool) (p : ℤ)
      → s.unrecorded ≡ none
      → lt_ℤ s.counters.num_procs st.max_childs ≡ true
      → positive p ≡ true
      → phase_of p s.children ≡ none
      → Step st s (forked p s)
  record-step : (s : Pool) (p : ℤ) → s.unrecorded ≡ some p → Step st s (recorded p s)
  claim-step : (s : Pool) (p : ℤ) → phase_of p s.children ≡ some idle → Step st s (claim p s)
  start-step : (s : Pool) (p : ℤ) → phase_of p s.children ≡ some claimed → Step st s (start p s)
  reap-step :
      (s : Pool) (p : ℤ) (a : ChildPhase)
      → s.unrecorded ≡ none
      → phase_of p s.children ≡ some a
      → Step st s (reap p a s)

pub data Reachable (st : Settings) : Pool → Type 0 where
  begin : Reachable st (initial st)
  next : (s t : Pool) → Reachable st s → Step st s t → Reachable st t
