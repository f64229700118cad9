-- ===== src/Smtpd/Queue.antt =====
-- The queue handlers of the server, and `smf_smtpd_process_modules`.
use spmfilter.Base.{
  none, some, List, [], ◌∷◌, ◌++◌, if◌then◌else◌, Bytes, codes, ℤ, pos, minus_one, eq_ℤ, printf_s,
}
use spmfilter.Settings.{Settings}
use spmfilter.Session.{Session}
use spmfilter.System.{System}
use spmfilter.Modules.Process.{State, ProcessQueue, modules_process}
use spmfilter.Smtpd.Reply.{code_reply, code_line, code_250_accepted}

module _ {M : Type 0} where
  -- `smf_smtpd_handle_q_processing_error`: the code for the queue, and the replies.
  unfoldable pub handle_processing_error : Settings → Session M → ℤ → ℤ × List Bytes
  handle_processing_error st s retval =
      if eq_ℤ retval minus_one
      then (if eq_ℤ st.module_fail (pos 1)
          then (pos 1, [])
          else if eq_ℤ st.module_fail (pos 2)
          then (pos 0, code_reply st.smtp_codes (pos 552) ∷ [])
          else if eq_ℤ st.module_fail (pos 3)
          then (pos 0, code_reply st.smtp_codes (pos 451) ∷ [])
          else (pos 0, []))
      else if eq_ℤ retval (pos 1)
      then (
        pos 1,
        elim s.response_msg [ some m ↦ code_line (pos 250) m | none ↦ code_250_accepted ] ∷ [],
      )
      else if eq_ℤ retval (pos 2)
      then (pos 2, [])
      else (
        pos 1,
        elim s.response_msg [ some m ↦ code_line retval m | none ↦ code_reply st.smtp_codes retval ]
            ∷ [],
      )

  -- `smf_smtpd_handle_nexthop_error`
  unfoldable pub handle_nexthop_error : Settings → Session M → List Bytes
  handle_nexthop_error st s = code_line st.nexthop_fail_code (printf_s st.nexthop_fail_msg) ∷ []

  -- `smf_modules_pqueue_init` with the handlers of the server.
  abbrev pub smtpd_queue : ProcessQueue M
  smtpd_queue = record {
    processing_error = handle_processing_error;
    nexthop_error = handle_nexthop_error;
  }

  -- The reply to a message that the queue has processed.
  unfoldable pub accepted_reply : Session M → Bytes
  accepted_reply s = elim s.response_msg [
    | some m ↦ code_line (pos 250) m
    | none ↦ code_line (pos 250) (codes "Ok: processed as " ++ s.id)
  ]

module _ {M W : Type 0} (sys : System M W) (st : Settings) where
  -- What follows the queue in `smf_smtpd_process_modules`.
  unfoldable pub reply_to_queue : ℤ → State M W → ℤ × State M W
  reply_to_queue ret s =
      if eq_ℤ ret minus_one
      then (minus_one, s)
      else if eq_ℤ ret (pos 1)
      then (pos 0, s)
      else (pos 0, record s { out = s.out ++ accepted_reply s.session ∷ [] })

  unfoldable pub process_modules : M → State M W → ℤ × State M W
  process_modules msg s =
      let (ret, s') = modules_process sys smtpd_queue st msg s in reply_to_queue ret s'
