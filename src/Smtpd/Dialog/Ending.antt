-- ===== src/Smtpd/Dialog/Ending.antt =====
-- The loop of `smf_smtpd_handle_client` ends for every client.
use spmfilter.Base.{
  ℕ, zero, suc, ◌+◌, ◌≤◌, ◌<◌, ◌≡◌, refl, inl, inr, true, List, [], ◌∷◌, arith, Bool-cases,
  Option-cases, length, Bytes,
}
use spmfilter.Internal.Readline.{Line}
use spmfilter.Settings.{Settings}
use spmfilter.System.{System}
use spmfilter.Modules.Process.{State}
use spmfilter.Smtpd.Host.{Host}
use spmfilter.Smtpd.Data.Receive.{Received, is_end, unstuff, take_line, receive, nothing_received}
use spmfilter.Spool.{gen_queue_file}
use spmfilter.Smtpd.Data.Process.{process_data}
use spmfilter.Smtpd.Dialog.{
  Phase, init, helo, xfwd, mail, rcpt, data_phase, quit, Command, quit_cmd, ehlo_cmd, helo_cmd,
  xforward_cmd, mail_cmd, rcpt_cmd, data_cmd, rset_cmd, noop_cmd, unknown, command, is_quit, Conn,
  accept_data, on_data, execute, dialog, handle_client, connected,
}

receive_rest : (lines : List Line) (d : Received) → length (receive lines d).1 ≤ length lines
unfolding receive
receive_rest [] d = omega arith
receive_rest (l ∷ ls) d = elim (Bool-cases (is_end l.text)) [
  | inl y ↦ rw y omega arith
  | inr n ↦ rw n omega (arith, receive_rest ls (take_line d (unstuff l.text) l.count))
]

module _ {M W : Type 0} (sys : System M W) (host : Host) (st : Settings) where
  process_data_rest :
      (lines : List Line) (s : State M W)
      → length (process_data sys host st lines s).1 ≤ length lines
  unfolding process_data
  process_data_rest lines s =
      let (path, w) = gen_queue_file sys st s.session.id s.world in
      elim (Option-cases (sys.write_file w path [])) [
        | inl n ↦ rw (n, process_data) omega arith
        | inr (w1, e) ↦ rw (e, process_data) (receive_rest lines nothing_received)
      ]

  on_data_rest :
      (p : Phase) (lines : List Line) (c : Conn M W)
      → length (on_data sys host st p lines c).1 ≤ length lines
  unfolding on_data accept_data
  on_data_rest rcpt lines c = process_data_rest lines c.state
  on_data_rest mail lines c = omega arith
  on_data_rest init lines c = omega arith
  on_data_rest helo lines c = omega arith
  on_data_rest xfwd lines c = omega arith
  on_data_rest data_phase lines c = omega arith
  on_data_rest quit lines c = omega arith

  execute_rest :
      (cmd : Command) (req : Bytes) (lines : List Line) (c : Conn M W)
      → length (execute sys host st cmd req lines c).1 ≤ length lines
  unfolding execute
  execute_rest data_cmd req lines c = on_data_rest c.phase lines c
  execute_rest quit_cmd req lines c = omega arith
  execute_rest helo_cmd req lines c = omega arith
  execute_rest ehlo_cmd req lines c = omega arith
  execute_rest xforward_cmd req lines c = omega arith
  execute_rest mail_cmd req lines c = omega arith
  execute_rest rcpt_cmd req lines c = omega arith
  execute_rest rset_cmd req lines c = omega arith
  execute_rest noop_cmd req lines c = omega arith
  execute_rest unknown req lines c = omega arith

  dialog_ends :
      (f : ℕ) (lines : List Line) (c : Conn M W)
      → length lines < f
      → (dialog sys host st f lines c).1 ≡ true
  unfolding dialog
  dialog_ends zero lines c h = absurd (omega arith)
  dialog_ends (suc f) [] c h = refl
  dialog_ends (suc f) (l ∷ lines) c h =
      let le = execute_rest (command l.text) l.text lines c in
      let r = execute sys host st (command l.text) l.text lines c in
      let again = dialog_ends f r.1 r.0 (omega (arith, le)) in
      elim (Bool-cases (is_quit (command l.text))) [ inl y ↦ rw y refl | inr n ↦ rw n again ]

  -- For every list of lines that a client sends, the loop over the requests ends by itself, at
  -- QUIT or at the end of the input, and never for want of fuel.
  handle_client-ends : (lines : List Line) (w : W) → (handle_client sys host st lines w).1 ≡ true
  unfolding handle_client
  handle_client-ends lines w =
      dialog_ends (length lines + 1) lines (connected sys host st w) (omega arith)
