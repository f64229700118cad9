-- ===== src/Smtpd/Dialog/Phases.antt =====
-- What the phase of the dialog says about the envelope of the session.
use spmfilter.Base.{
  ◌<◌, ◌≡◌, refl, inl, inr, Bool, true, false, some, List, [], arith, Bool-cases, Option-cases,
  length, length-append, Bytes, codes, equal, strcasestr,
}
use spmfilter.Internal.Readline.{Line}
use spmfilter.Envelope.{Envelope, set_sender, add_rcpt}
use spmfilter.Settings.{Settings}
use spmfilter.System.{System}
use spmfilter.Smtpd.Host.{Host}
use spmfilter.Smtpd.Dialog.{
  Phase, init, helo, xfwd, mail, rcpt, data_phase, quit, Command, quit_cmd, ehlo_cmd, helo_cmd,
  xforward_cmd, mail_cmd, rcpt_cmd, data_cmd, rset_cmd, noop_cmd, unknown, get_req_value, Conn,
  on_helo, on_xforward, accept_mail, on_mail, accept_rcpt, on_rcpt, accept_data, on_data, on_rset,
  execute,
}

-- In ST_MAIL the envelope has a sender, and in ST_RCPT a recipient too.
unfoldable pub HasParties : {M : Type 0} → Phase → Envelope M → Type 0
HasParties mail e = (a : Bytes) × (e.sender ≡ some a)
HasParties rcpt e = ((a : Bytes) × (e.sender ≡ some a)) × (0 < length e.recipients)
HasParties _ e = Unit

unfoldable pub IsReady : {M W : Type 0} → Conn M W → Type 0
IsReady c = HasParties c.phase c.state.session.envelope

-- A HELO or EHLO without a name.
unfoldable pub is_nameless : Command → Bytes → Bool
is_nameless ehlo_cmd req = equal (get_req_value req 4) []
is_nameless helo_cmd req = equal (get_req_value req 4) []
is_nameless _ req = false

module _ {M W : Type 0} (sys : System M W) (host : Host) (st : Settings) where
  on_helo-IsReady :
      (extended : Bool) (req : Bytes) (c : Conn M W)
      → equal (get_req_value req 4) [] ≡ false
      → IsReady (on_helo sys host st extended req c)
  unfolding on_helo IsReady HasParties
  on_helo-IsReady extended req c h = rw h tt

  on_xforward-IsReady :
      (req : Bytes) (c : Conn M W) → IsReady c → IsReady (on_xforward sys host st req c)
  unfolding on_xforward IsReady HasParties
  on_xforward-IsReady req c h = elim (Option-cases (strcasestr req (codes "ADDR="))) [
    | inl n ↦ rw (n, on_xforward) h
    | inr (t, e) ↦ rw (e, on_xforward) tt
  ]

  accept_mail-IsReady :
      (req : Bytes) (c : Conn M W) → IsReady c → IsReady (accept_mail sys host st req c)
  unfolding accept_mail IsReady HasParties set_sender
  accept_mail-IsReady req c h = elim (Bool-cases (equal (get_req_value req 10) [])) [
    | inl y ↦ rw y h
    | inr n ↦ rw n (_, refl)
  ]

  on_mail-IsReady :
      (p : Phase) (req : Bytes) (c : Conn M W) → IsReady c → IsReady (on_mail sys host st p req c)
  unfolding on_mail IsReady
  on_mail-IsReady mail req c h = h
  on_mail-IsReady init req c h = accept_mail-IsReady req c h
  on_mail-IsReady helo req c h = accept_mail-IsReady req c h
  on_mail-IsReady xfwd req c h = accept_mail-IsReady req c h
  on_mail-IsReady rcpt req c h = accept_mail-IsReady req c h
  on_mail-IsReady data_phase req c h = accept_mail-IsReady req c h
  on_mail-IsReady quit req c h = accept_mail-IsReady req c h

  accept_rcpt-IsReady :
      (req : Bytes) (c : Conn M W)
      → IsReady c
      → HasParties mail c.state.session.envelope
      → IsReady (accept_rcpt sys host st req c)
  unfolding accept_rcpt IsReady HasParties add_rcpt
  accept_rcpt-IsReady req c h s = elim (Bool-cases (equal (get_req_value req 8) [])) [
    | inl y ↦ rw y h
    | inr n ↦ rw n (s, rw (length-append c.state.session.envelope.recipients _) omega arith)
  ]

  on_rcpt-IsReady :
      (p : Phase) (req : Bytes) (c : Conn M W)
      → IsReady c
      → HasParties p c.state.session.envelope
      → IsReady (on_rcpt sys host st p req c)
  unfolding on_rcpt HasParties IsReady
  on_rcpt-IsReady mail req c h s = accept_rcpt-IsReady req c h s
  on_rcpt-IsReady rcpt req c h s = accept_rcpt-IsReady req c h s.0
  on_rcpt-IsReady init req c h s = h
  on_rcpt-IsReady helo req c h s = h
  on_rcpt-IsReady xfwd req c h s = h
  on_rcpt-IsReady data_phase req c h s = h
  on_rcpt-IsReady quit req c h s = h

  on_data-IsReady :
      (p : Phase) (lines : List Line) (c : Conn M W)
      → IsReady c
      → IsReady (on_data sys host st p lines c).0
  unfolding on_data accept_data HasParties IsReady
  on_data-IsReady rcpt lines c h = tt
  on_data-IsReady mail lines c h = h
  on_data-IsReady init lines c h = h
  on_data-IsReady helo lines c h = h
  on_data-IsReady xfwd lines c h = h
  on_data-IsReady data_phase lines c h = h
  on_data-IsReady quit lines c h = h

  -- Every request but a HELO or EHLO without a name keeps it true that in ST_MAIL the envelope has
  -- a sender, and in ST_RCPT a sender and a recipient.
  pub execute-IsReady :
      (cmd : Command) (req : Bytes) (lines : List Line) (c : Conn M W)
      → is_nameless cmd req ≡ false
      → IsReady c
      → IsReady (execute sys host st cmd req lines c).0
  unfolding execute is_nameless IsReady HasParties on_rset
  execute-IsReady quit_cmd req lines c n h = tt
  execute-IsReady helo_cmd req lines c n h = on_helo-IsReady false req c n
  execute-IsReady ehlo_cmd req lines c n h = on_helo-IsReady true req c n
  execute-IsReady xforward_cmd req lines c n h = on_xforward-IsReady req c h
  execute-IsReady mail_cmd req lines c n h = on_mail-IsReady c.phase req c h
  execute-IsReady rcpt_cmd req lines c n h = on_rcpt-IsReady c.phase req c h h
  execute-IsReady data_cmd req lines c n h = on_data-IsReady c.phase lines c h
  execute-IsReady rset_cmd req lines c n h = tt
  execute-IsReady noop_cmd req lines c n h = h
  execute-IsReady unknown req lines c n h = h
