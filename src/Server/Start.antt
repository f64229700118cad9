-- ===== src/Server/Start.antt =====
-- How the server starts: `smf_server_init`, `smf_server_sig_init` and `_smf_server_init_ipc` of
-- src/smf_server.c, compiled for POSIX semaphores.
pub mod Privileges
use spmfilter.Base.{ℕ, Bool, Option, none, some, if◌then◌else◌, Bytes, ℤ, pos, minus_one, eq_ℤ}
use spmfilter.Settings.{Settings}
use spmfilter.Server.{Counters, init_counters}

pub data Signal : Type 0 where
  sigterm : Signal
  sigint : Signal
  sigusr1 : Signal
  sigchld : Signal

-- The process has ended with a code, or by an access that is not allowed, or goes on.
pub data Run (A : Type 0) : Type 0 where
  exited : ℤ → Run A
  crashed : Run A
  alive : A → Run A

-- What the system does. `W` is its state; true stands for success.
pub record Kernel (W : Type 0) : Type 0 where
  pub sigaction : W → Signal → Bool × W
  pub fork : W → ℤ × W
  pub setsid : W → Bool × W
  pub close_std : W → W
  pub chdir : W → Option Bytes → Bool × W
  pub umask : W → ℕ → W
  -- fopen, fprintf of the pid and fclose
  pub write_pid : W → Bytes → W
  pub getgrnam : W → Bytes → Option ℕ × W
  pub getpwnam : W → Bytes → Option ℕ × W
  pub setgid : W → ℕ → Bool × W
  pub setuid : W → ℕ → Bool × W
  pub sem_open : W → Bool × W
  -- shm_unlink, shm_open and ftruncate
  pub shm_open : W → Bool × W
  pub mmap : W → Bool × W

abbrev pub M : Type 0 → Type 0 → Type 0
M W A = W → Run A × W

module _ {W : Type 0} where
  abbrev pub pure : {A : Type 0} → A → M W A
  pure a w = (alive a, w)

  abbrev pub go_on : {A B : Type 0} → Run A × W → (A → M W B) → Run B × W
  go_on (exited c, w) f = (exited c, w)
  go_on (crashed, w) f = (crashed, w)
  go_on (alive a, w) f = f a w

  infixl 5 ◌>>=◌ ◌>>◌
  abbrev pub ◌>>=◌ : {A B : Type 0} → M W A → (A → M W B) → M W B
  ◌>>=◌ m f w = go_on (m w) f

  abbrev pub ◌>>◌ : {B : Type 0} → M W (Unit {0}) → M W B → M W B
  m >> k = m >>= λ _. k

  -- `exit(EXIT_FAILURE)` where a call fails.
  abbrev pub or_exit : (W → Bool × W) → M W (Unit {0})
  or_exit call w = let (done, w1) = call w in (if done then alive tt else exited (pos 1), w1)

  abbrev pub or_exit_none : {A : Type 0} → (W → Option A × W) → M W A
  or_exit_none call w =
      let (found, w1) = call w in
      elim found [ none ↦ (exited (pos 1), w1) | some a ↦ (alive a, w1) ]

  abbrev pub modify : (W → W) → M W (Unit {0})
  modify f w = (alive tt, f w)

module _ {W : Type 0} (k : Kernel W) where
  unfoldable pub sig_init : M W (Unit {0})
  sig_init = do
    or_exit (λ w. k.sigaction w sigterm)
    or_exit (λ w. k.sigaction w sigint)
    or_exit (λ w. k.sigaction w sigusr1)
    or_exit (λ w. k.sigaction w sigchld)

  -- The first fork: its failure is only logged.
  abbrev pub first_fork : M W (Unit {0})
  first_fork w =
      let (pid, w1) = k.fork w in
      (
        if eq_ℤ pid minus_one
            then alive tt
            else if eq_ℤ pid (pos 0)
            then alive tt
            else exited (pos 0),
        w1,
      )

  abbrev pub second_fork : M W (Unit {0})
  second_fork w =
      let (pid, w1) = k.fork w in
      (
        if eq_ℤ pid minus_one
            then exited (pos 1)
            else if eq_ℤ pid (pos 0)
            then alive tt
            else exited (pos 0),
        w1,
      )

  unfoldable pub daemonize : Settings → M W (Unit {0})
  daemonize st = do
    first_fork
    or_exit k.setsid
    second_fork
    modify k.close_std
    or_exit (λ w. k.chdir w st.queue_dir)
    modify (λ w. k.umask w 0)

  abbrev pub write_pid_file : Option Bytes → M W (Unit {0})
  write_pid_file none = pure tt
  write_pid_file (some path) = modify (λ w. k.write_pid w path)

  -- The group is looked up and set before the user.
  abbrev pub switch_user : Option Bytes → Option Bytes → M W (Unit {0})
  switch_user none group = pure tt
  switch_user (some user) none = pure tt
  switch_user (some user) (some group) = do
    gid ← or_exit_none (λ w. k.getgrnam w group)
    uid ← or_exit_none (λ w. k.getpwnam w user)
    or_exit (λ w. k.setgid w gid)
    or_exit (λ w. k.setuid w uid)

  -- What follows a call of `_smf_server_init_ipc` that returns -1: `smf_server_init` exits. A failure of
  -- mmap is not seen, since it is compared with NULL, and the counters are written through -1.
  unfoldable pub init_ipc : Settings → M W Counters
  init_ipc st = do
    or_exit k.sem_open
    or_exit k.shm_open
    λ w. let (mapped, w1) = k.mmap w in (if mapped then alive (init_counters st) else crashed, w1)

  unfoldable pub server_init : Settings → M W Counters
  server_init st = do
    sig_init
    if eq_ℤ st.foreground (pos 0) then daemonize st else pure tt
    write_pid_file st.pid_file
    switch_user st.user st.group
    init_ipc st
