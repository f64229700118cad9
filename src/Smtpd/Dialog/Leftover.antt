-- ===== src/Smtpd/Dialog/Leftover.antt =====
-- The recipients of a former transaction.
use spmfilter.Base.{◌≡◌, refl, inl, inr, [], Bool-cases, Bytes, equal}
use spmfilter.Envelope.{set_sender}
use spmfilter.Settings.{Settings}
use spmfilter.System.{System}
use spmfilter.Smtpd.Host.{Host}
use spmfilter.Smtpd.Dialog.{
  Phase, init, helo, xfwd, mail, rcpt, data_phase, quit, get_req_value, Conn, accept_mail, on_mail,
}

module _ {M W : Type 0} (sys : System M W) (host : Host) (st : Settings) where
  accept_mail-recipients :
      (req : Bytes) (c : Conn M W)
      → (accept_mail sys host st req c).state.session.envelope.recipients
        ≡ c.state.session.envelope.recipients
  unfolding accept_mail set_sender
  accept_mail-recipients req c = elim (Bool-cases (equal (get_req_value req 10) [])) [
    | inl y ↦ rw y refl
    | inr n ↦ rw n refl
  ]

  -- In no phase does a MAIL command change the recipients: where it begins a new transaction behind
  -- DATA, or in ST_RCPT, the envelope still has those of the former one.
  pub on_mail-recipients :
      (p : Phase) (req : Bytes) (c : Conn M W)
      → (on_mail sys host st p req c).state.session.envelope.recipients
        ≡ c.state.session.envelope.recipients
  unfolding on_mail
  on_mail-recipients mail req c = refl
  on_mail-recipients init req c = accept_mail-recipients req c
  on_mail-recipients helo req c = accept_mail-recipients req c
  on_mail-recipients xfwd req c = accept_mail-recipients req c
  on_mail-recipients rcpt req c = accept_mail-recipients req c
  on_mail-recipients data_phase req c = accept_mail-recipients req c
  on_mail-recipients quit req c = accept_mail-recipients req c
