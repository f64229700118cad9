-- ===== src/Smtpd/Dialog/Replies.antt =====
-- The replies of the dialog.
use spmfilter.Base.{
  ◌≡◌, refl, inl, inr, Bool, true, false, List, [], ◌∷◌, ◌++◌, Bool-cases, Option-cases, Bytes,
  codes, equal, strcasestr,
}
use spmfilter.Internal.Readline.{Line}
use spmfilter.Settings.{Settings}
use spmfilter.System.{System}
use spmfilter.Smtpd.Host.{Host}
use spmfilter.Smtpd.Dialog.{
  Phase, init, helo, xfwd, mail, rcpt, data_phase, quit, Command, quit_cmd, ehlo_cmd, helo_cmd,
  xforward_cmd, mail_cmd, rcpt_cmd, data_cmd, rset_cmd, noop_cmd, unknown, get_req_value, Conn,
  is_init, reset, on_helo, on_xforward, accept_mail, on_mail, accept_rcpt, on_rcpt, on_data,
  on_rset, execute,
}

-- A DATA that the server takes.
unfoldable pub takes_data : Command → Phase → Bool
takes_data data_cmd rcpt = true
takes_data _ _ = false

-- One more reply, and nothing else for the world.
unfoldable pub Answers : {M W : Type 0} → Conn M W → Conn M W → Type 0
Answers c c' =
    ((r : Bytes) × (c'.state.out ≡ c.state.out ++ r ∷ [])) × (c'.state.world ≡ c.state.world)

module _ {M W : Type 0} (sys : System M W) (host : Host) (st : Settings) where
  on_helo-Answers :
      (extended : Bool) (req : Bytes) (c : Conn M W)
      → Answers c (on_helo sys host st extended req c)
  unfolding on_helo reset Answers
  on_helo-Answers extended req c = elim (Bool-cases (is_init c.phase)) [
    | inl y ↦ elim (Bool-cases (equal (get_req_value req 4) [])) [
      | inl v ↦ rw (y, v) ((_, refl), refl)
      | inr v ↦ rw (y, v) ((_, refl), refl)
    ]
    | inr n ↦ elim (Bool-cases (equal (get_req_value req 4) [])) [
      | inl v ↦ rw (n, v) ((_, refl), refl)
      | inr v ↦ rw (n, v) ((_, refl), refl)
    ]
  ]

  on_xforward-Answers : (req : Bytes) (c : Conn M W) → Answers c (on_xforward sys host st req c)
  unfolding on_xforward Answers
  on_xforward-Answers req c = elim (Option-cases (strcasestr req (codes "ADDR="))) [
    | inl n ↦ rw (n, on_xforward) ((_, refl), refl)
    | inr (t, e) ↦ rw (e, on_xforward) ((_, refl), refl)
  ]

  accept_mail-Answers : (req : Bytes) (c : Conn M W) → Answers c (accept_mail sys host st req c)
  unfolding accept_mail Answers
  accept_mail-Answers req c = elim (Bool-cases (equal (get_req_value req 10) [])) [
    | inl y ↦ rw y ((_, refl), refl)
    | inr n ↦ rw n ((_, refl), refl)
  ]

  on_mail-Answers :
      (p : Phase) (req : Bytes) (c : Conn M W) → Answers c (on_mail sys host st p req c)
  unfolding on_mail Answers
  on_mail-Answers mail req c = ((_, refl), refl)
  on_mail-Answers init req c = accept_mail-Answers req c
  on_mail-Answers helo req c = accept_mail-Answers req c
  on_mail-Answers xfwd req c = accept_mail-Answers req c
  on_mail-Answers rcpt req c = accept_mail-Answers req c
  on_mail-Answers data_phase req c = accept_mail-Answers req c
  on_mail-Answers quit req c = accept_mail-Answers req c

  accept_rcpt-Answers : (req : Bytes) (c : Conn M W) → Answers c (accept_rcpt sys host st req c)
  unfolding accept_rcpt Answers
  accept_rcpt-Answers req c = elim (Bool-cases (equal (get_req_value req 8) [])) [
    | inl y ↦ rw y ((_, refl), refl)
    | inr n ↦ rw n ((_, refl), refl)
  ]

  on_rcpt-Answers :
      (p : Phase) (req : Bytes) (c : Conn M W) → Answers c (on_rcpt sys host st p req c)
  unfolding on_rcpt Answers
  on_rcpt-Answers mail req c = accept_rcpt-Answers req c
  on_rcpt-Answers rcpt req c = accept_rcpt-Answers req c
  on_rcpt-Answers init req c = ((_, refl), refl)
  on_rcpt-Answers helo req c = ((_, refl), refl)
  on_rcpt-Answers xfwd req c = ((_, refl), refl)
  on_rcpt-Answers data_phase req c = ((_, refl), refl)
  on_rcpt-Answers quit req c = ((_, refl), refl)

  on_data-Answers :
      (p : Phase) (lines : List Line) (c : Conn M W)
      → takes_data data_cmd p ≡ false
      → let r = on_data sys host st p lines c in Answers c r.0 × (r.1 ≡ lines)
  unfolding on_data Answers takes_data
  on_data-Answers rcpt lines c h = absurd (cc)
  on_data-Answers mail lines c h = (((_, refl), refl), refl)
  on_data-Answers init lines c h = (((_, refl), refl), refl)
  on_data-Answers helo lines c h = (((_, refl), refl), refl)
  on_data-Answers xfwd lines c h = (((_, refl), refl), refl)
  on_data-Answers data_phase lines c h = (((_, refl), refl), refl)
  on_data-Answers quit lines c h = (((_, refl), refl), refl)

  -- Every request gets exactly one reply, and takes no other line of the client and does nothing to
  -- the file system, unless it is a DATA in ST_RCPT.
  pub execute-Answers :
      (cmd : Command) (req : Bytes) (lines : List Line) (c : Conn M W)
      → takes_data cmd c.phase ≡ false
      → let r = execute sys host st cmd req lines c in Answers c r.0 × (r.1 ≡ lines)
  unfolding execute on_rset reset Answers
  execute-Answers quit_cmd req lines c h = (((_, refl), refl), refl)
  execute-Answers helo_cmd req lines c h = (on_helo-Answers false req c, refl)
  execute-Answers ehlo_cmd req lines c h = (on_helo-Answers true req c, refl)
  execute-Answers xforward_cmd req lines c h = (on_xforward-Answers req c, refl)
  execute-Answers mail_cmd req lines c h = (on_mail-Answers c.phase req c, refl)
  execute-Answers rcpt_cmd req lines c h = (on_rcpt-Answers c.phase req c, refl)
  execute-Answers data_cmd req lines c h = on_data-Answers c.phase lines c h
  execute-Answers rset_cmd req lines c h = (((_, refl), refl), refl)
  execute-Answers noop_cmd req lines c h = (((_, refl), refl), refl)
  execute-Answers unknown req lines c h = (((_, refl), refl), refl)
