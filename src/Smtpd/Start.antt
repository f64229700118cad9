-- ===== src/Smtpd/Start.antt =====
-- How the SMTP server starts, `load` of src/smf_smtpd.c, and `smf_smtpd_sig_handler`.
use spmfilter.Base.{
  ℕ, Bool, Option, none, some, List, ◌++◌, if◌then◌else◌, lt_ℤ, Bytes, codes, ℤ, pos,
}
use spmfilter.Settings.{Settings}
use spmfilter.Server.Listen.{Resolved, server_listen}
use spmfilter.Server.Loop.{Wait, Act, server_loop}
use spmfilter.Server.Start.{Run, exited, crashed, alive, Kernel, go_on, server_init}

-- What the calls of the system give the server when it starts and while it runs.
pub record Site (W : Type 0) : Type 0 where
  pub kernel : Kernel W
  pub resolved : Resolved
  pub forks : ℕ → ℤ
  pub waits : List Wait

-- The pool begins with the counters of `smf_server_init`; none while the server still waits.
unfoldable pub load : {W : Type 0} → Site W → Settings → List ℕ → W → Run (Option (List Act)) × W
load site st fds w = elim (server_listen site.resolved fds) [
  | none ↦ (crashed, w)
  | some (sd, descriptors) ↦
      if lt_ℤ sd (pos 0)
      then (exited (pos 1), w)
      else go_on (server_init site.kernel st w)
          λ counters w1. (alive (server_loop st site.forks site.waits), w1)
]

-- What a signal writes to the client before the child ends: only the alarm does.
unfoldable pub sig_handler_reply : Bool → Bytes → Option Bytes
unfolding codes
sig_handler_reply is_alarm hostname =
    if is_alarm
    then some (codes "421 " ++ (hostname ++ codes " Error: timeout exceeded\r\n"))
    else none
