-- ===== src/Modules/Invoke.antt =====
-- `smf_module_invoke`: one module runs on a session, and a message whose spool file it has changed
-- is read again.
use spmfilter.Base.{ℕ, false, ◌&&◌, none, some, ltb, if◌then◌else◌, Bytes, ℤ, pos, minus_one, eq_ℤ}
use spmfilter.Settings.{Settings}
use spmfilter.Session.{Session}
use spmfilter.System.{System}

module _ {M W : Type 0} (sys : System M W) where
  -- `message_file_mtime`: 0 where `stat` fails, as it does without a path.
  unfoldable pub message_file_mtime : Session M → W → ℕ
  message_file_mtime s w = elim s.message_file [
    | none ↦ 0
    | some path ↦ elim (sys.mtime w path) [ none ↦ 0 | some t ↦ t ]
  ]

  -- `smf_message_free(session->envelope->message)`
  unfoldable pub free_message : Session M → W → W
  free_message s w = elim s.envelope.message [ none ↦ w | some m ↦ sys.message_free w m ]

  -- The spool file has changed: the message is read again, and replaced if that succeeds.
  unfoldable pub reload : Bytes → Session M → W → ℤ × Session M × W
  reload path s w =
      let (result, m, w') = sys.message_from_file w path false in
      if eq_ℤ result (pos 0)
      then (
        result,
        record s { envelope = record (s.envelope) { message = some m } },
        free_message s w',
      )
      else (result, s, w')

  -- What follows the call of the module.
  unfoldable pub after_run : ℕ → ℤ → Session M → W → ℤ × Session M × W
  after_run before result s w = elim s.message_file [
    | none ↦ (result, s, w)
    | some path ↦
        if eq_ℤ result (pos 0) && ltb before (message_file_mtime s w)
        then reload path s w
        else (result, s, w)
  ]

  unfoldable pub module_invoke : Settings → Bytes → Session M → W → ℤ × Session M × W
  module_invoke st name s w = elim (sys.runner name) [
    | none ↦ (minus_one, s, w)
    | some run ↦
        let (result, s', w') = run st s w in after_run (message_file_mtime s w) result s' w'
  ]
