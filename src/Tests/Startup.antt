-- ===== src/Tests/Startup.antt =====
-- The start of the server on a host where every call succeeds.
use spmfilter.Base.{ℕ, ◌+◌, ◌≡◌, refl, true, some, [], ◌∷◌, codes, ℤ, pos, eq_ℤ}
use spmfilter.Settings.{Settings, settings_new}
use spmfilter.Server.Listen.{
  no_socket, no_bind, listening, addresses, opened, server_listen, Listens, server_listen-Listens,
}
use spmfilter.Server.{init_counters}
use spmfilter.Server.Start.Privileges.{IsSwitched, server_init-IsSwitched}
use spmfilter.Server.Start.{Kernel, alive, sig_init, daemonize, init_ipc, server_init}

server_listen-Listens_example :
    let found = no_socket ∷ no_bind 5 ∷ listening 5 ∷ [] in
    (r : ℤ) × ((server_listen (addresses found) (3 ∷ []) ≡ some (r, opened r (3 ∷ [])))
      × Listens found r)
server_listen-Listens_example =
    server_listen-Listens (no_socket ∷ no_bind 5 ∷ listening 5 ∷ []) (3 ∷ [])

-- The state counts the calls.
abbrev kernel : Kernel ℕ
kernel = record {
  sigaction = λ w s. (true, w + 1);
  fork = λ w. (pos 0, w + 1);
  setsid = λ w. (true, w + 1);
  close_std = λ w. w + 1;
  chdir = λ w path. (true, w + 1);
  umask = λ w mask. w + 1;
  write_pid = λ w path. w + 1;
  getgrnam = λ w name. (some 8, w + 1);
  getpwnam = λ w name. (some 9, w + 1);
  setgid = λ w id. (true, w + 1);
  setuid = λ w id. (true, w + 1);
  sem_open = λ w. (true, w + 1);
  shm_open = λ w. (true, w + 1);
  mmap = λ w. (true, w + 1);
}

abbrev daemon_settings : Settings
daemon_settings = record settings_new { user = some (codes "mail"); group = some (codes "mail") }

server-starts : server_init kernel daemon_settings 0 ≡ (alive (init_counters daemon_settings), 17)
unfolding server_init sig_init daemonize init_ipc settings_new eq_ℤ
server-starts = refl

server_init-IsSwitched_example :
    IsSwitched kernel
      (codes "mail")
      (codes "mail")
      daemon_settings
      (alive (init_counters daemon_settings), 17)
server_init-IsSwitched_example =
    server_init-IsSwitched kernel (codes "mail") (codes "mail") daemon_settings 0 17
      (init_counters daemon_settings) refl refl server-starts
