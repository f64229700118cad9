-- ===== src/Smtpd/Replies.antt =====
-- How many replies the queue handlers and `smf_smtpd_process_modules` write for a message.
use spmfilter.Base.{refl, ap, ◌⊎◌, inl, inr, List, [], ◌∷◌, ◌++◌, Bytes, ℤ, pos, minus_one, eq_ℤ}
use spmfilter.Settings.{Settings}
use spmfilter.Session.{Session}
use spmfilter.System.{System}
use spmfilter.Modules.Codes.{if_both}
use spmfilter.Modules.Contract.{Adds, IsSilent, Sent, IsContract, Settled, modules_process-Settled}
use spmfilter.Modules.Process.{State}
use spmfilter.Smtpd.Queue.{
  handle_processing_error, handle_nexthop_error, smtpd_queue, accepted_reply, reply_to_queue,
  process_modules,
}

handle_processing_error-Sent :
    {M : Type 0} (st : Settings) (s : Session M) (result : ℤ)
    → Sent (handle_processing_error st s result)
unfolding handle_processing_error Sent
handle_processing_error-Sent st s result =
    if_both Sent (eq_ℤ result minus_one) _ _
      (if_both Sent (eq_ℤ st.module_fail (pos 1)) _ _ (inl (inr refl, inl refl)) (
        if_both Sent (eq_ℤ st.module_fail (pos 2)) _ _ (inl (inl refl, inr refl)) (
          if_both Sent (eq_ℤ st.module_fail (pos 3)) _ _ (inl (inl refl, inr refl))
            (inl (inl refl, inl refl)))))
      (if_both Sent (eq_ℤ result (pos 1)) _ _ (inl (inr refl, inr refl))
        (if_both Sent (eq_ℤ result (pos 2)) _ _ (inr (refl, refl)) (inl (inr refl, inr refl))))

smtpd_queue-IsContract : {M : Type 0} → IsContract {M = M} smtpd_queue
unfolding handle_nexthop_error
smtpd_queue-IsContract = record {
  processing_sent = handle_processing_error-Sent;
  nexthop_sent = λ st s. inr refl;
}

module _ {M W : Type 0} (sys : System M W) (st : Settings) where
  reply_to_queue-Adds :
      (out : List Bytes) (r : ℤ × State M W)
      → Settled out r
      → let s' = (reply_to_queue sys st r.0 r.1).1 in Adds 0 out s'.out ⊎ Adds 1 out s'.out
  unfolding Settled IsSilent reply_to_queue eq_ℤ Adds
  reply_to_queue-Adds out (code, s) (inl (inl c, h)) = rw c h
  reply_to_queue-Adds out (code, s) (inl (inr c, h)) = rw c h
  reply_to_queue-Adds out (code, s) (inr (c, e)) =
      rw c (inr (_, (refl, ap (λ o. o ++ accepted_reply s.session ∷ []) e)))

  -- For a message that has gone through the queue the client gets one reply at most.
  pub process_modules-Adds :
      (msg : M) (s : State M W)
      → let s' = (process_modules sys st msg s).1 in Adds 0 s.out s'.out ⊎ Adds 1 s.out s'.out
  unfolding process_modules
  process_modules-Adds msg s =
      reply_to_queue-Adds s.out _
        (modules_process-Settled sys smtpd_queue smtpd_queue-IsContract st msg s)
