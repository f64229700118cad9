-- ===== src/Modules/Flush.antt =====
-- `smf_modules_flush_dirty`: where the headers have changed, the queue file is written anew, with
-- the message's headers in front of the old body.
use spmfilter.Base.{
  Option, none, some, List, ◌++◌, if◌then◌else◌, Bytes, codes, ℤ, pos, minus_one, printf_s,
}
use spmfilter.Message.{write_skip_header}
use spmfilter.Settings.{Settings}
use spmfilter.Session.{Session}
use spmfilter.System.{System, Header}
use spmfilter.Modules.Headers.{is_dirty}

module _ {M W : Type 0} (sys : System M W) where
  -- The body of the old queue file goes behind the new headers, and the new file takes its place.
  unfoldable pub merge_body : Bytes → Bytes → Bytes → W → ℤ × W
  merge_body tmpname path head w = elim (sys.read_file w path) [
    | none ↦ (minus_one, w)
    | some old ↦ elim (sys.write_file w tmpname (head ++ write_skip_header old)) [
      | none ↦ (minus_one, w)
      | some w1 ↦ elim (sys.unlink w1 path) [
        | none ↦ (minus_one, w1)
        | some w2 ↦ elim (sys.rename w2 tmpname path) [
          | none ↦ (minus_one, w2)
          | some w3 ↦ (pos 0, w3)
        ]
      ]
    ]
  ]

  -- The temporary file with the headers of the message; opening a NULL path fails.
  unfoldable pub rewrite_file : Bytes → Option Bytes → M → W → ℤ × W
  rewrite_file queue_dir file m w = elim (sys.mkstemp w (queue_dir ++ codes "/XXXXXX")) [
    | none ↦ (minus_one, w)
    | some (tmpname, w1) ↦ elim (sys.write_file w1 tmpname (sys.to_string w1 m)) [
      | none ↦ (minus_one, w1)
      | some w2 ↦ elim file [
        | none ↦ (minus_one, w2)
        | some path ↦ merge_body tmpname path (sys.to_string w1 m) w2
      ]
    ]
  ]

  unfoldable pub flush_dirty : Settings → Session M → M → List Header → W → ℤ × W
  flush_dirty st s m initial w =
      if is_dirty (sys.headers w m) initial
      then rewrite_file (printf_s st.queue_dir) s.message_file m w
      else (pos 0, w)
