-- ===== src/Server.antt =====
-- src/smf_server.c: the counters of the process pool, which the parent and its children share. The
-- semaphore makes each operation a single step. The loops visit the first `max_childs` entries of
-- the two tables, which hold CHILD_LIMIT, so a table here is those entries; 0 is a free one.
pub mod Tables
pub mod Refill
pub mod Pool
pub mod Listen
pub mod Start
pub mod Loop
use spmfilter.Base.{
  inc, dec, lt_ℤ, to_ℕ, ℕ, zero, suc, ◌+◌, ◌-◌, ◌/◌, ◌<◌, ap, Bool, false, not, ◌&&◌, ◌||◌, List,
  [], ◌∷◌, map, ◌==◌, if◌then◌else◌, set, take, replicate, ℤ, pos, eq_ℤ, positive,
}
use spmfilter.Settings.{Settings}

pub record Counters : Type 0 where
  pub num_procs : ℤ
  pub num_spare : ℤ
  pub max_childs : ℤ
  pub childs_active : List ℤ
  pub childs : List ℤ

-- What `_smf_server_init_ipc` stores.
unfoldable pub init_counters : Settings → Counters
init_counters st = record {
  num_procs = pos 0;
  num_spare = pos 0;
  max_childs = st.max_childs;
  childs_active = replicate (to_ℕ st.max_childs) (pos 0);
  childs = replicate (to_ℕ st.max_childs) (pos 0);
}

-- The loops that store a pid in the first free entry; in a full table it is not stored.
unfoldable pub put_free : ℤ → List ℤ → List ℤ
put_free pid [] = []
put_free pid (x ∷ xs) =
    let later = x ∷ put_free pid xs in if eq_ℤ x (pos 0) then pid ∷ xs else later

-- The loops that clear the first entry with a pid.
unfoldable pub clear : ℤ → List ℤ → List ℤ
clear pid [] = []
clear pid (x ∷ xs) = let later = x ∷ clear pid xs in if eq_ℤ x pid then pos 0 ∷ xs else later

-- `removed == 1`
unfoldable pub holds_pid : ℤ → List ℤ → Bool
holds_pid pid [] = false
holds_pid pid (x ∷ xs) = eq_ℤ x pid || holds_pid pid xs

-- `_smf_server_add_child`
unfoldable pub add_child : Counters → ℤ → Counters
add_child c pid = record c {
  num_procs = inc c.num_procs;
  num_spare = inc c.num_spare;
  childs = put_free pid c.childs;
}

unfoldable pub decrement_spare : Counters → Counters
decrement_spare c = record c { num_spare = dec c.num_spare }

unfoldable pub add_active : Counters → ℤ → Counters
add_active c pid = record c { childs_active = put_free pid c.childs_active }

-- `_smf_server_remove_active`: its last step takes the semaphore again.
unfoldable pub remove_active : Counters → ℤ → Counters
remove_active c pid =
    let c' : Counters = record c {
      num_procs = dec c.num_procs;
      childs_active = clear pid c.childs_active;
      childs = clear pid c.childs;
    } in
    if holds_pid pid c.childs_active then c' else decrement_spare c'

-- The parent's side of `smf_server_fork`, for what `fork` returns; -1 is recorded too.
unfoldable pub server_fork : Counters → ℤ → Counters
server_fork c pid = add_child c pid

-- The test of the inner loop of `smf_server_loop`.
unfoldable pub wants_child : Settings → Counters → Bool
wants_child st c = lt_ℤ c.num_spare st.spare_childs || lt_ℤ c.num_procs c.num_spare

-- `while(num_procs < settings->max_childs)`, with fuel; `pids` are what `fork` returns.
unfoldable pub refill : ℕ → Settings → (ℕ → ℤ) → Counters → Counters
refill zero st pids c = c
refill (suc f) st pids c =
    let more = refill f st (λ i. pids (i + 1)) (server_fork c (pids 0)) in
    if lt_ℤ c.num_procs st.max_childs && wants_child st c then more else c

-- The prefork loop, for `n` turns.
unfoldable pub prefork_loop : ℕ → (ℕ → ℤ) → Counters → Counters
prefork_loop zero pids c = c
prefork_loop (suc n) pids c = prefork_loop n (λ i. pids (i + 1)) (server_fork c (pids 0))

unfoldable pub prefork : Settings → (ℕ → ℤ) → Counters → Counters
prefork st pids c =
    if eq_ℤ st.spare_childs (pos 0)
    then server_fork c (pids 0)
    else prefork_loop (to_ℕ st.spare_childs) pids c

-- A turn of the outer loop behind `waitpid`, for the pid that it returns.
unfoldable pub after_wait : ℕ → Settings → (ℕ → ℤ) → ℤ → Counters → Counters
after_wait f st pids pid c = refill f st pids (if positive pid then remove_active c pid else c)

-- The pids that `smf_server_loop` sends SIGTERM when it stops.
unfoldable pub terminated : List ℤ → List ℤ
terminated [] = []
terminated (x ∷ xs) = if positive x then x ∷ terminated xs else terminated xs
