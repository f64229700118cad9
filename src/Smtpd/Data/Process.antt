-- ===== src/Smtpd/Data/Process.antt =====
-- From the received lines to the reply.
use spmfilter.Base.{
  ℕ, ◌+◌, Bool, true, not, ◌&&◌, ◌||◌, Option, none, some, List, [], ◌∷◌, ◌++◌, ltb, ◌==◌,
  if◌then◌else◌, Bytes, codes, pos, eq_ℤ, printf_s,
}
use spmfilter.Internal.Readline.{Line}
use spmfilter.Settings.{Settings}
use spmfilter.System.{System}
use spmfilter.Spool.{queue_dir_of, gen_queue_file}
use spmfilter.Modules.Process.{State}
use spmfilter.Smtpd.Host.{Host}
use spmfilter.Smtpd.Reply.{code_reply}
use spmfilter.Smtpd.Queue.{process_modules}
use spmfilter.Smtpd.Data.Receive.{Received, nothing_received, receive}

-- The header lines that `smf_smtpd_append_missing_headers` writes in front of the message.
unfoldable pub missing_headers : Host → Option Bytes → Received → Bytes
missing_headers host sender d =
    let nl = printf_s d.nl in
    (if d.found_mid then [] else codes "Message-Id: " ++ (host.message_id ++ nl))
    ++ ((if d.found_date then [] else host.date_line ++ nl)
        ++ ((if d.found_from then [] else codes "From: " ++ (printf_s sender ++ nl))
            ++ ((if d.found_to then [] else codes "To: undisclosed-recipients:;" ++ nl)
                ++ (if d.found_header then [] else nl))))

-- `if ((found_mid==0)||(found_to==0)||(found_from==0)||(found_date==0))`
unfoldable pub lacks_header : Received → Bool
lacks_header d = not d.found_mid || (not d.found_to || (not d.found_from || not d.found_date))

-- `session->message_size > max && max != 0`
unfoldable pub too_large : Settings → ℕ → Bool
too_large st size = ltb st.max_size size && not (st.max_size == 0)

module _ {M W : Type 0} (sys : System M W) (host : Host) (st : Settings) where
  -- The file work of `smf_smtpd_append_missing_headers`; its return value is not used.
  unfoldable pub append_missing_headers : Option Bytes → Bytes → Received → W → W
  append_missing_headers sender path d w =
      elim (sys.mkstemp w (queue_dir_of st ++ codes "/XXXXXX")) [
        | none ↦ w
        | some (tmpname, w1) ↦
            let head = missing_headers host sender d in
            elim (sys.write_file w1 tmpname head) [
              | none ↦ w1
              | some w2 ↦ elim (sys.read_file w2 path) [
                | none ↦ w2
                | some old ↦ elim (sys.write_file w2 tmpname (head ++ old)) [
                  | none ↦ w2
                  | some w3 ↦ elim (sys.unlink w3 path) [
                    | none ↦ w3
                    | some w4 ↦ elim (sys.rename w4 tmpname path) [ none ↦ w4 | some w5 ↦ w5 ]
                  ]
                ]
              ]
            ]
      ]

  -- The spool file as the loop leaves it, with what its header lacks.
  unfoldable pub write_spool : Option Bytes → Bytes → Received → W → W
  write_spool sender path d w =
      let w' : W = elim (sys.write_file w path d.spool) [ none ↦ w | some w1 ↦ w1 ] in
      if lacks_header d then append_missing_headers sender path d w' else w'

  -- `remove(session->message_file)`
  unfoldable pub remove_spool : State M W → State M W
  remove_spool s = record s {
    world = elim s.session.message_file [
      | none ↦ s.world
      | some path ↦ elim (sys.unlink s.world path) [ none ↦ s.world | some w ↦ w ]
    ];
  }

  -- The message is read from its file and goes through the queue.
  unfoldable pub queue_message : Bytes → State M W → State M W
  queue_message path s =
      let (code, m, w) = sys.message_from_file s.world path true in
      if eq_ℤ code (pos 0)
      then (let session' = record (s.session) {
        envelope = record (s.session.envelope) { message = some m };
      } in
          let (_, s') = process_modules sys st m (record s { session = session'; world = w }) in
          remove_spool s')
      else record s { world = w; out = s.out ++ code_reply st.smtp_codes (pos 451) ∷ [] }

  -- What follows the loop, for the session with the size of the message added.
  unfoldable pub after_data : Bytes → Received → State M W → State M W
  after_data path d s =
      if too_large st s.session.message_size
      then remove_spool (record s {
        out = s.out ++ codes "552 message size exceeds fixed maximium message size\r\n" ∷ [];
      })
      else queue_message path s

  -- `smf_smtpd_process_data` on the lines that the client sends: the state after it, and the lines
  -- that it has not read.
  unfoldable pub process_data : List Line → State M W → State M W × List Line
  process_data lines s =
      let (path, w) = gen_queue_file sys st s.session.id s.world in
      let session1 = record (s.session) { message_file = some path } in
      elim (sys.write_file w path []) [
        | none ↦ (
          record {
            session = session1;
            world = w;
            out = s.out ++ code_reply st.smtp_codes (pos 451) ∷ [];
          },
          lines,
        )
        | some w1 ↦
            let (d, rest) = receive lines nothing_received in
            let session2 = record session1 { message_size = session1.message_size + d.size } in
            let s' : State M W = record {
              session = session2;
              world = write_spool session2.envelope.sender path d w1;
              out = s.out ++ codes "354 End data with <CR><LF>.<CR><LF>\r\n" ∷ [];
            } in
            (after_data path d s', rest)
      ]
