-- ===== src/Server/Refill.antt =====
-- The loop of `smf_server_loop` that forks children behind `waitpid`.
use spmfilter.Base.{
  lt_ℤ, ℕ, zero, suc, ◌+◌, ◌≤◌, ◌<◌, ◌≡◌, refl, ap, ◌∙◌, ◌⊎◌, inl, inr, Bool, true, false, ◌&&◌,
  arith, ◌==◌, if◌then◌else◌, Bool-cases, ℤ, pos, eq_ℤ, positive,
}
use spmfilter.Settings.{Settings}
use spmfilter.Server.{
  after_wait, prefork, prefork_loop, remove_active, decrement_spare, holds_pid, Counters, refill,
  wants_child, server_fork, add_child,
}

-- The test of the loop and of the `if` in it.
unfoldable pub wants_more : Settings → Counters → Bool
wants_more st c = lt_ℤ c.num_procs st.max_childs && wants_child st c

-- A loop with a turn left whose test holds takes one.
refill-suc :
    (f : ℕ) (st : Settings) (pids : ℕ → ℤ) (c : Counters)
    → wants_more st c ≡ true
    → refill (suc f) st pids c ≡ refill f st (λ i. pids (i + 1)) (server_fork c (pids 0))
unfolding refill wants_more
refill-suc f st pids c h = rw h refl

refill-stop :
    (f : ℕ) (st : Settings) (pids : ℕ → ℤ) (c : Counters)
    → wants_more st c ≡ false
    → refill (suc f) st pids c ≡ c
unfolding refill wants_more
refill-stop f st pids c h = rw h refl

refill-zero :
    (n m : ℕ) (st : Settings) (pids : ℕ → ℤ) (c : Counters)
    → st.max_childs ≡ pos m
    → c.num_procs ≡ pos n
    → m ≤ n + 0
    → wants_more st (refill zero st pids c) ≡ false
unfolding refill wants_more
refill-zero n m st pids c hm hn h = rw (hm, hn) ground arith

unfoldable pub AddsUpTo : ℕ → ℕ → ℤ → Type 0
AddsUpTo n m x = (k : ℕ) × ((x ≡ pos (n + k)) × ((k ≡ 0) ⊎ (n + k ≤ m)))

AddsUpTo-zero : (n m : ℕ) (x : ℤ) → x ≡ pos n → AddsUpTo n m x
unfolding AddsUpTo
AddsUpTo-zero n m x h = (0, (h ∙ ap pos (omega arith), inl refl))

AddsUpTo-suc : (n m : ℕ) (x : ℤ) → n < m → AddsUpTo (suc n) m x → AddsUpTo n m x
unfolding AddsUpTo
AddsUpTo-suc n m x l (k, (h, hk)) = (suc k, (h ∙ ap pos (omega arith), inr (ground arith)))

wants_more-lt :
    (n m : ℕ) (st : Settings) (c : Counters)
    → st.max_childs ≡ pos m
    → c.num_procs ≡ pos n
    → wants_more st c ≡ true
    → n < m
unfolding wants_more
wants_more-lt n m st c hm hn h = ground arith

num_procs-server_fork :
    (n : ℕ) (c : Counters) (p : ℤ) → c.num_procs ≡ pos n → (server_fork c p).num_procs ≡ pos (suc n)
unfolding server_fork add_child
num_procs-server_fork n c p h = rw h refl

num_procs-refill-zero :
    (st : Settings) (pids : ℕ → ℤ) (c : Counters) → (refill zero st pids c).num_procs ≡ c.num_procs
unfolding refill
num_procs-refill-zero st pids c = refl

-- The loop ends by its own test, and adds no more than it may.
pub refill-wants_more :
    (f n m : ℕ) (st : Settings) (pids : ℕ → ℤ) (c : Counters)
    → st.max_childs ≡ pos m
    → c.num_procs ≡ pos n
    → m ≤ n + f
    → (wants_more st (refill f st pids c) ≡ false) × AddsUpTo n m (refill f st pids c).num_procs
refill-wants_more zero n m st pids c hm hn h = (
  refill-zero n m st pids c hm hn h,
  AddsUpTo-zero n m (refill zero st pids c).num_procs (num_procs-refill-zero st pids c ∙ hn),
)
refill-wants_more (suc f) n m st pids c hm hn h = elim (Bool-cases (wants_more st c)) [
  | inl y ↦
      let l : n < m = wants_more-lt n m st c hm hn y in
      let pids' : ℕ → ℤ = λ i. pids (i + 1) in
      let c' = server_fork c (pids 0) in
      let (ends, adds) =
        refill-wants_more f (suc n) m st pids' c' hm (num_procs-server_fork n c (pids 0) hn)
          (omega arith) in
      rw (refill-suc f st pids c y) (ends, AddsUpTo-suc n m (refill f st pids' c').num_procs l adds)
  | inr z ↦ rw (refill-stop f st pids c z) (z, AddsUpTo-zero n m c.num_procs hn)
]

num_procs-remove_active :
    (c : Counters) (n : ℕ) (pid : ℤ)
    → c.num_procs ≡ pos (suc n)
    → (remove_active c pid).num_procs ≡ pos n
unfolding remove_active decrement_spare
num_procs-remove_active c n pid h = elim (Bool-cases (holds_pid pid c.childs_active)) [
  | inl y ↦ rw (y, h) refl
  | inr z ↦ rw (z, h) refl
]

-- A turn of the outer loop of `smf_server_loop`, with n processes left behind waitpid and enough fuel for
-- what is missing up to max_childs, ends because the test of the inner loop fails, not for want of fuel:
-- then max_childs processes are counted, or the counters want no further child. Behind the removal it
-- counts no process away, and it takes their number to max_childs at most, or leaves it as it is.
pub after_wait-wants_more :
    (f n m : ℕ) (st : Settings) (pids : ℕ → ℤ) (pid : ℤ) (c : Counters)
    → st.max_childs ≡ pos m
    → c.num_procs ≡ pos (if positive pid then suc n else n)
    → m ≤ n + f
    → (wants_more st (after_wait f st pids pid c) ≡ false)
      × AddsUpTo n m (after_wait f st pids pid c).num_procs
unfolding after_wait
after_wait-wants_more f n m st pids pid c hm hn h = elim (Bool-cases (positive pid)) [
  | inl y ↦ rw y (
      refill-wants_more f n m st pids (remove_active c pid) hm
        (num_procs-remove_active c n pid (rw y at hn)) h)
  | inr z ↦ rw z (refill-wants_more f n m st pids c hm (rw z at hn) h)
]

-- The children that are forked before the first waitpid, in a pool with none.
num_procs-prefork_loop :
    (k n : ℕ) (pids : ℕ → ℤ) (c : Counters)
    → c.num_procs ≡ pos n
    → (prefork_loop k pids c).num_procs ≡ pos (k + n)
unfolding prefork_loop
num_procs-prefork_loop zero n pids c h = h ∙ ap pos (omega arith)
num_procs-prefork_loop (suc k) n pids c h =
    num_procs-prefork_loop k (suc n) (λ i. pids (i + 1)) (server_fork c (pids 0))
      (num_procs-server_fork n c (pids 0) h)
    ∙ ap pos (omega arith)

-- At least one, and spare_childs of them, whatever max_childs is.
pub num_procs-prefork :
    (st : Settings) (pids : ℕ → ℤ) (c : Counters) (s : ℕ)
    → st.spare_childs ≡ pos s
    → c.num_procs ≡ pos 0
    → (prefork st pids c).num_procs ≡ pos (if s == 0 then 1 else s)
unfolding prefork eq_ℤ
num_procs-prefork st pids c zero hs h = rw hs (num_procs-server_fork 0 c (pids 0) h)
num_procs-prefork st pids c (suc s) hs h =
    let z : suc s == 0 ≡ false = ground arith in
    let n : suc s + 0 ≡ suc s = omega arith in
    rw (hs, z) (num_procs-prefork_loop (suc s) 0 pids c h ∙ ap pos n)
