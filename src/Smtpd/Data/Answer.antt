-- ===== src/Smtpd/Data/Answer.antt =====
-- How many replies a DATA command gets.
use spmfilter.Base.{
  ◌≡◌, refl, ◌⊎◌, inl, inr, true, List, [], ◌∷◌, ◌++◌, Bool-cases, Option-cases, Bytes, codes, pos,
  eq_ℤ,
}
use spmfilter.Internal.Readline.{Line}
use spmfilter.Settings.{Settings}
use spmfilter.System.{System}
use spmfilter.Modules.Process.{State}
use spmfilter.Smtpd.Host.{Host}
use spmfilter.Smtpd.Reply.{code_reply}
use spmfilter.Modules.Contract.{Adds}
use spmfilter.Smtpd.Replies.{process_modules-Adds}
use spmfilter.Smtpd.Data.Receive.{receive, nothing_received, Received}
use spmfilter.Spool.{gen_queue_file}
use spmfilter.Smtpd.Data.Process.{too_large, remove_spool, queue_message, after_data, process_data}

abbrev go_ahead : Bytes
unfolding codes
go_ahead = codes "354 End data with <CR><LF>.<CR><LF>\r\n"

-- 451 alone, or 354 with one more reply at most.
unfoldable pub IsAnswered : Settings → List Bytes → List Bytes → Type 0
unfolding go_ahead
IsAnswered st before after =
    (after ≡ before ++ code_reply st.smtp_codes (pos 451) ∷ [])
    ⊎ (Adds 0 (before ++ go_ahead ∷ []) after ⊎ Adds 1 (before ++ go_ahead ∷ []) after)

module _ {M W : Type 0} (sys : System M W) (host : Host) (st : Settings) where
  queue_message-Adds :
      (path : Bytes) (s : State M W)
      → let s' = queue_message sys host st path s in Adds 0 s.out s'.out ⊎ Adds 1 s.out s'.out
  unfolding queue_message remove_spool Adds
  queue_message-Adds path s =
      elim (Bool-cases (eq_ℤ (sys.message_from_file s.world path true).0 (pos 0))) [
        | inl y ↦ rw y (process_modules-Adds sys st _ _)
        | inr n ↦ rw n (inr (_, (refl, refl)))
      ]

  after_data-Adds :
      (path : Bytes) (d : Received) (s : State M W)
      → let s' = after_data sys host st path d s in Adds 0 s.out s'.out ⊎ Adds 1 s.out s'.out
  unfolding after_data remove_spool Adds
  after_data-Adds path d s = elim (Bool-cases (too_large st s.session.message_size)) [
    | inl y ↦ rw y (inr (_, (refl, refl)))
    | inr n ↦ rw n (queue_message-Adds path s)
  ]

  -- A DATA command that the server takes is answered by 451 alone, or by 354 and, behind the
  -- message, one reply at most, whatever the modules, the flush and the delivery return.
  pub process_data-IsAnswered :
      (lines : List Line) (s : State M W)
      → IsAnswered st s.out (process_data sys host st lines s).0.out
  unfolding process_data IsAnswered codes
  process_data-IsAnswered lines s =
      let q = gen_queue_file sys st s.session.id s.world in
      elim (Option-cases (sys.write_file q.1 q.0 [])) [
        | inl n ↦ rw (n, process_data) (inl refl)
        | inr (w1, e) ↦
            rw (e, process_data) (inr (after_data-Adds q.0 (receive lines nothing_received).0 _))
      ]
