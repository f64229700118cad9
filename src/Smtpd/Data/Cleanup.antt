-- ===== src/Smtpd/Data/Cleanup.antt =====
-- What a DATA command leaves in the queue directory.
use spmfilter.Base.{
  refl, eq_ℤ, ◌≡◌, true, false, none, some, [], List, Option-cases, ◌⊎◌, Bool-cases, inl, inr,
  Bytes, pos, eq_ℤ-refl, ◌∙◌, ℤ, minus_one,
}
use spmfilter.Internal.Readline.{Line}
use spmfilter.Settings.{Settings}
use spmfilter.System.{System}
use spmfilter.Modules.Process.{State}
use spmfilter.Smtpd.Host.{Host}
use spmfilter.Modules.Codes.{if_both}
use spmfilter.Modules.Process.{modules_process}
use spmfilter.Modules.Path.{Keeping, modules_process-path}
use spmfilter.Smtpd.Queue.{smtpd_queue, reply_to_queue, process_modules}
use spmfilter.Smtpd.Data.Receive.{receive, nothing_received, Received}
use spmfilter.Spool.{gen_queue_file}
use spmfilter.Smtpd.Data.Process.{
  too_large, write_spool, remove_spool, queue_message, after_data, process_data,
}

-- Where `remove` of a path succeeds there is no file at it.
unfoldable pub Removing : {M W : Type 0} → System M W → Type 0
Removing {W} sys =
    (w w1 : W) (path : Bytes) → sys.unlink w path ≡ some w1 → sys.is_file w1 path ≡ false

-- There is no file at the path, or it cannot be removed.
unfoldable pub IsGone : {M W : Type 0} → System M W → W → Bytes → Type 0
IsGone sys w path = (sys.is_file w path ≡ false) ⊎ (sys.unlink w path ≡ none)

module _ {M W : Type 0} (sys : System M W) (host : Host) (st : Settings) where
  remove_spool_clean :
      (path : Bytes) (s : State M W)
      → Removing sys
      → s.session.message_file ≡ some path
      → IsGone sys (remove_spool sys host st s).world path
  unfolding remove_spool Removing IsGone
  remove_spool_clean path s removing e = elim (Option-cases (sys.unlink s.world path)) [
    | inl n ↦ rw (e, n, remove_spool) (inr n)
    | inr (w1, u) ↦ rw (e, u, remove_spool) (inl (removing s.world w1 path u))
  ]

  reply_to_queue-path :
      (ret : ℤ) (s : State M W)
      → (reply_to_queue sys st ret s).1.session.message_file ≡ s.session.message_file
  unfolding reply_to_queue
  reply_to_queue-path ret s =
      let Kept = λ (r : ℤ × State M W). r.1.session.message_file ≡ s.session.message_file in
      if_both Kept (eq_ℤ ret minus_one) _ _ refl (if_both Kept (eq_ℤ ret (pos 1)) _ _ refl refl)

  process_modules-path :
      (msg : M) (s : State M W)
      → Keeping sys
      → (process_modules sys st msg s).1.session.message_file ≡ s.session.message_file
  unfolding process_modules
  process_modules-path msg s keeping =
      let (ret, s1) = modules_process sys smtpd_queue st msg s in
      reply_to_queue-path ret s1 ∙ modules_process-path sys keeping smtpd_queue st msg s

  after_data_clean :
      (path : Bytes) (d : Received) (s : State M W)
      → Removing sys
      → Keeping sys
      → (sys.message_from_file s.world path true).0 ≡ pos 0
      → s.session.message_file ≡ some path
      → IsGone sys (after_data sys host st path d s).world path
  unfolding after_data queue_message
  after_data_clean path d s removing keeping reads e =
      elim (Bool-cases (too_large st s.session.message_size)) [
        | inl y ↦ rw y (remove_spool_clean path _ removing e)
        | inr n ↦
            rw (n, reads, eq_ℤ-refl (pos 0))
              (remove_spool_clean path _ removing (process_modules-path _ _ keeping ∙ e))
      ]

  -- Where the spool file of a DATA command can be opened and libcmime reads the message that has been
  -- written to it, there is no file at its path when the command has ended, unless it cannot be removed
  -- then: whether the message is too large, is refused by a module or is delivered. No module is to set
  -- the spool file of the session, and where a removal succeeds there is no file at its path.
  pub process_data_clean :
      (lines : List Line) (s : State M W) (w1 : W)
      → Removing sys
      → Keeping sys
      → let (path, w) = gen_queue_file sys st s.session.id s.world in
        let d = (receive lines nothing_received).0 in
        let written = write_spool sys host st s.session.envelope.sender path d w1 in
        sys.write_file w path [] ≡ some w1
        → (sys.message_from_file written path true).0 ≡ pos 0
        → IsGone sys (process_data sys host st lines s).0.world path
  unfolding process_data
  process_data_clean lines s w1 removing keeping e reads =
      rw (e, process_data)
        (after_data_clean (gen_queue_file sys st s.session.id s.world).0
          (receive lines nothing_received).0 _ removing keeping reads refl)
