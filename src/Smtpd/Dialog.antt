-- ===== src/Smtpd/Dialog.antt =====
-- `smf_smtpd_handle_client`: the dialog with a client. Tracing, the alarm and the signals to the
-- parent are left out.
pub mod Phases
pub mod Ending
pub mod Reach
pub mod Replies
pub mod Leftover
use spmfilter.Base.{
  ℕ, zero, suc, ◌+◌, ◌-◌, ◌<◌, Bool, true, false, not, none, some, List, [], ◌∷◌, ◌++◌, ◌==◌,
  if◌then◌else◌, length, get_or, set, drop, Bytes, codes, equal, strncasecmp_eq, strchr, ℤ, pos,
  strcasestr, show_ℤ, as_int,
}
use spmfilter.Internal.Readline.{Line}
use spmfilter.Core.Strip.{strstrip}
use spmfilter.Envelope.{Envelope, set_sender, add_rcpt}
use spmfilter.Settings.{Settings}
use spmfilter.Session.{Session, session_new, set_helo, set_xforward_addr}
use spmfilter.System.{System}
use spmfilter.Modules.Process.{State}
use spmfilter.Smtpd.Host.{Host}
use spmfilter.Smtpd.Reply.{code_reply}
use spmfilter.Smtpd.Data.Process.{process_data}

-- The values ST_INIT to ST_QUIT of `state`.
pub data Phase : Type 0 where
  init helo xfwd mail rcpt data_phase quit : Phase

-- `smf_smtpd_get_req_value`
unfoldable pub get_req_value : Bytes → ℕ → Bytes
get_req_value req jmp =
    let p = drop jmp req in strstrip (if get_or p 0 0 == 32 then drop 1 p else p)

-- The commands, by the tests on the request line in their order.
pub data Command : Type 0 where
  quit_cmd ehlo_cmd helo_cmd xforward_cmd mail_cmd rcpt_cmd data_cmd rset_cmd noop_cmd unknown :
      Command

unfoldable pub command : Bytes → Command
command req =
    if strncasecmp_eq req (codes "quit") 4
    then quit_cmd
    else if strncasecmp_eq req (codes "helo") 4
    then helo_cmd
    else if strncasecmp_eq req (codes "ehlo") 4
    then ehlo_cmd
    else if strncasecmp_eq req (codes "xforward") 8
    then xforward_cmd
    else if strncasecmp_eq req (codes "mail from:") 10
    then mail_cmd
    else if strncasecmp_eq req (codes "rcpt to:") 8
    then rcpt_cmd
    else if strncasecmp_eq req (codes "data") 4
    then data_cmd
    else if strncasecmp_eq req (codes "rset") 4
    then rset_cmd
    else if strncasecmp_eq req (codes "noop") 4
    then noop_cmd
    else unknown

-- The command that leaves the loop.
unfoldable pub is_quit : Command → Bool
is_quit quit_cmd = true
is_quit _ = false

-- The variables of the loop, and the number of sessions made so far.
pub record Conn (M W : Type 0) : Type 0 where
  pub phase : Phase
  pub state : State M W
  pub sessions : ℕ

module _ {M W : Type 0} where
  abbrev pub reply : Conn M W → Bytes → Conn M W
  reply c text = record c { state = record (c.state) { out = c.state.out ++ text ∷ [] } }

  abbrev pub put_session : Conn M W → Session M → Conn M W
  put_session c s = record c { state = record (c.state) { session = s } }

  abbrev pub put_phase : Conn M W → Phase → Conn M W
  put_phase c p = record c { phase = p }

-- `state != ST_INIT`
unfoldable pub is_init : Phase → Bool
is_init init = true
is_init _ = false

module _ {M W : Type 0} (host : Host) where
  -- `smf_session_free` and `smf_session_new`
  unfoldable pub reset : Conn M W → Conn M W
  reset c = record c {
    state = record (c.state) { session = session_new (host.sid c.sessions) };
    sessions = c.sessions + 1;
  }

module _ {M W : Type 0} (sys : System M W) (host : Host) (st : Settings) where
  -- The reply to EHLO (the flag) or HELO.
  unfoldable pub helo_reply : Bool → Bytes
  helo_reply true =
      codes "250-"
      ++ (host.hostname
          ++ (codes "\r\n250-XFORWARD ADDR\r\n250 SIZE "
              ++ (show_ℤ (as_int st.max_size) ++ codes "\r\n")))
  helo_reply false = codes "250 " ++ (host.hostname ++ codes "\r\n")

  unfoldable pub on_helo : Bool → Bytes → Conn M W → Conn M W
  on_helo extended req c =
      let c1 = if is_init c.phase then c else reset host c in
      let value = get_req_value req 4 in
      let c2 = put_session c1 (set_helo c1.state.session value) in
      if equal value []
      then reply c2 (codes "501 Syntax: HELO hostname\r\n")
      else put_phase (reply c2 (helo_reply extended)) helo

  unfoldable pub on_xforward : Bytes → Conn M W → Conn M W
  on_xforward req c = elim (strcasestr req (codes "ADDR=")) [
    | none ↦ reply c (codes "501 Syntax: XFORWARD attribute=value...\r\n")
    | some t ↦
        let addr : Bytes = elim (strchr t b'=') [ none ↦ [] | some u ↦ strstrip (drop 1 u) ] in
        put_phase
          (reply (put_session c (set_xforward_addr c.state.session addr))
            (code_reply st.smtp_codes (pos 250)))
          xfwd
  ]

  abbrev with_envelope : Conn M W → Envelope M → Conn M W
  with_envelope c e = put_session c (record (c.state.session) { envelope = e })

  -- `mail from:` where no MAIL command is open.
  unfoldable pub accept_mail : Bytes → Conn M W → Conn M W
  accept_mail req c =
      let value = get_req_value req 10 in
      if equal value []
      then reply c (codes "501 Syntax: MAIL FROM:<address>\r\n")
      else put_phase
          (reply (with_envelope c (set_sender c.state.session.envelope value))
            (code_reply st.smtp_codes (pos 250)))
          mail

  unfoldable pub on_mail : Phase → Bytes → Conn M W → Conn M W
  on_mail mail req c = reply c (codes "503 Error: nested MAIL command\r\n")
  on_mail _ req c = accept_mail req c

  -- `rcpt to:` in a mail transaction.
  unfoldable pub accept_rcpt : Bytes → Conn M W → Conn M W
  accept_rcpt req c =
      let value = get_req_value req 8 in
      if equal value []
      then reply c (codes "501 Syntax: RCPT TO:<address>\r\n")
      else put_phase
          (reply (with_envelope c (add_rcpt c.state.session.envelope value))
            (code_reply st.smtp_codes (pos 250)))
          rcpt

  unfoldable pub on_rcpt : Phase → Bytes → Conn M W → Conn M W
  on_rcpt mail req c = accept_rcpt req c
  on_rcpt rcpt req c = accept_rcpt req c
  on_rcpt _ req c = reply c (codes "503 Error: need MAIL command\r\n")

  unfoldable pub accept_data : List Line → Conn M W → Conn M W × List Line
  accept_data lines c =
      let (s, rest) = process_data sys host st lines c.state in
      (record c { phase = data_phase; state = s }, rest)

  unfoldable pub on_data : Phase → List Line → Conn M W → Conn M W × List Line
  on_data rcpt lines c = accept_data lines c
  on_data mail lines c = (reply c (codes "554 Error: no valid recipients\r\n"), lines)
  on_data _ lines c = (reply c (codes "503 Error: need RCPT command\r\n"), lines)

  unfoldable pub on_rset : Conn M W → Conn M W
  on_rset c = put_phase (reply (reset host c) (code_reply st.smtp_codes (pos 250))) init

  -- One request: the connection after it, and the lines that are left.
  unfoldable pub execute : Command → Bytes → List Line → Conn M W → Conn M W × List Line
  execute quit_cmd req lines c =
      (put_phase (reply c (code_reply st.smtp_codes (pos 221))) quit, lines)
  execute helo_cmd req lines c = (on_helo false req c, lines)
  execute ehlo_cmd req lines c = (on_helo true req c, lines)
  execute xforward_cmd req lines c = (on_xforward req c, lines)
  execute mail_cmd req lines c = (on_mail c.phase req c, lines)
  execute rcpt_cmd req lines c = (on_rcpt c.phase req c, lines)
  execute data_cmd req lines c = on_data c.phase lines c
  execute rset_cmd req lines c = (on_rset c, lines)
  execute noop_cmd req lines c = (reply c (code_reply st.smtp_codes (pos 250)), lines)
  execute unknown req lines c = (reply c (codes "502 Error: command not recognized\r\n"), lines)

  -- `for (;;)` over the requests, with fuel, from a state that is not ST_QUIT. It ends at `quit`, at
  -- the end of the input, or where the fuel does; the flag says that it has ended by itself.
  unfoldable pub dialog : ℕ → List Line → Conn M W → Conn M W × Bool
  dialog zero lines c = (c, false)
  dialog (suc f) [] c = (c, true)
  dialog (suc f) (l ∷ lines) c =
      let (c', rest) = execute (command l.text) l.text lines c in
      let later = dialog f rest c' in if is_quit (command l.text) then (c', true) else later

  -- The connection when the greeting has been sent.
  unfoldable pub connected : W → Conn M W
  connected w =
      let s : State M W = record {
        session = session_new (host.sid 0);
        world = w;
        out = (codes "220 " ++ (host.hostname ++ codes " spmfilter\r\n")) ∷ [];
      } in
      record { phase = init; state = s; sessions = 1 }

  -- `smf_smtpd_handle_client` on the lines that the client sends.
  unfoldable pub handle_client : List Line → W → Conn M W × Bool
  handle_client lines w = dialog (length lines + 1) lines (connected w)
