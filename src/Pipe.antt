-- ===== src/Pipe.antt =====
-- src/smf_pipe.c: the engine that filters one message from its standard input.
pub mod Output
use spmfilter.Base.{
  ◌+◌, ◌-◌, ◌/◌, Bool, true, false, not, none, some, List, [], ◌∷◌, ◌++◌, if◌then◌else◌, Bytes, ℤ,
  pos, minus_one, eq_ℤ,
}
use spmfilter.Settings.{Settings}
use spmfilter.Session.{Session, session_new}
use spmfilter.System.{System}
use spmfilter.Spool.{gen_queue_file}
use spmfilter.Modules.Process.{State, ProcessQueue, modules_process}

-- A turn of the loop over the standard input: fread fails, fwrite fails, or bytes are copied.
pub data Turn : Type 0 where
  unread : Turn
  unwritten : Turn
  copied : Bytes → Turn

-- Whether the loop comes to the end of the input, and what it has written.
unfoldable pub copy_stdin : List Turn → Bytes → Bool × Bytes
copy_stdin [] written = (true, written)
copy_stdin (unread ∷ turns) written = (false, written)
copy_stdin (unwritten ∷ turns) written = (false, written)
copy_stdin (copied bytes ∷ turns) written = copy_stdin turns (written ++ bytes)

module _ {M : Type 0} where
  -- `smf_pipe_handle_q_processing_error`: the code for the queue, and what is printed.
  unfoldable pub handle_q_processing_error : Settings → Session M → ℤ → ℤ × List Bytes
  handle_q_processing_error st s retval =
      if eq_ℤ retval minus_one
      then (if eq_ℤ st.module_fail (pos 1) then (pos 1, []) else (pos 0, []))
      else if eq_ℤ retval (pos 1)
      then (pos 1, [])
      else if eq_ℤ retval (pos 2)
      then (pos 2, [])
      else (pos 1, elim s.response_msg [ some m ↦ (m ++ b'\n' ∷ []) ∷ [] | none ↦ [] ])

  -- `smf_modules_pqueue_init` with the handlers of the engine; that for the next hop prints nothing.
  abbrev pub pipe_queue : ProcessQueue M
  pipe_queue = record { processing_error = handle_q_processing_error; nexthop_error = λ st s. [] }

module _ {M W : Type 0} (sys : System M W) (st : Settings) where
  -- `remove(session->message_file)`
  unfoldable pub remove_message : State M W → State M W
  remove_message s = elim s.session.message_file [
    | none ↦ s
    | some path ↦ elim (sys.unlink s.world path) [ none ↦ s | some w ↦ record s { world = w } ]
  ]

  -- From the spooled message on.
  unfoldable pub process_spooled : Bytes → State M W → ℤ × State M W
  process_spooled path s =
      let (code, m, w) = sys.message_from_file s.world path true in
      if eq_ℤ code (pos 0)
      then (let session' = record (s.session) {
        envelope = record (s.session.envelope) { message = some m };
      } in
          let (ret, s') =
            modules_process sys pipe_queue st m (record s { session = session'; world = w }) in
          (ret, remove_message s'))
      else (minus_one, record s { world = w })

  -- `load`, for the id of the session and the turns of the loop over the input. A spool file stays
  -- where the function returns early.
  unfoldable pub load : Bytes → List Turn → W → ℤ × State M W
  load sid turns w =
      let (path, w1) = gen_queue_file sys st sid w in
      let s : State M W = record {
        session = record (session_new sid) { message_file = some path };
        world = w1;
        out = [];
      } in
      elim (sys.write_file w1 path []) [
        | none ↦ (minus_one, s)
        | some w2 ↦
            let (complete, written) = copy_stdin turns [] in
            elim (sys.write_file w2 path written) [
              | none ↦ (minus_one, record s { world = w2 })
              | some w3 ↦
                  if complete
                  then process_spooled path (record s { world = w3 })
                  else (minus_one, record s { world = w3 })
            ]
      ]
