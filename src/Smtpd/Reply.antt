-- ===== src/Smtpd/Reply.antt =====
-- What the server writes to its client, each reply as one text. `smf_smtpd_string_reply` takes its
-- text as a format; here it stands for itself, as it does where it holds no `%`.
use spmfilter.Base.{none, some, ◌++◌, if◌then◌else◌, Bytes, codes, ℤ, pos, eq_ℤ, show_ℤ}
use spmfilter.Dict
use spmfilter.Dict.{Dict}

unfoldable pub code_221 : Bytes
unfolding codes
code_221 = codes "221 Goodbye. Please recommend us to others!\r\n"

unfoldable pub code_250 : Bytes
unfolding codes
code_250 = codes "250 OK\r\n"

unfoldable pub code_250_accepted : Bytes
unfolding codes
code_250_accepted = codes "250 OK message accepted\r\n"

unfoldable pub code_451 : Bytes
unfolding codes
code_451 = codes "451 Requested action aborted: local error in processing\r\n"

unfoldable pub code_502 : Bytes
unfolding codes
code_502 = codes "502 Command not implemented\r\n"

unfoldable pub code_552 : Bytes
unfolding codes
code_552 = codes "552 Requested action aborted: local error in processing\r\n"

-- asprintf(&out, "%d %s\r\n", code, text)
unfoldable pub code_line : ℤ → Bytes → Bytes
code_line code text = show_ℤ code ++ (codes " " ++ (text ++ codes "\r\n"))

-- The switch on the code, for a code that the configuration does not define.
unfoldable pub default_reply : ℤ → Bytes
default_reply code =
    if eq_ℤ code (pos 221)
    then code_221
    else if eq_ℤ code (pos 250)
    then code_250
    else if eq_ℤ code (pos 451)
    then code_451
    else if eq_ℤ code (pos 502)
    then code_502
    else if eq_ℤ code (pos 552)
    then code_552
    else code_451

-- `smf_smtpd_code_reply`
unfoldable pub code_reply : Dict → ℤ → Bytes
code_reply table code = elim (Dict.get table (show_ℤ code)) [
  | none ↦ default_reply code
  | some msg ↦ code_line code msg
]
