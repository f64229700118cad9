-- ===== src/Smtpd/Configured.antt =====
-- The replies that the configuration defines.
use spmfilter.Base.{
  ◌≡◌, refl, sym, ap, ◌∙◌, inl, inr, Option, none, some, if◌then◌else◌, Bool-cases, Option-cases,
  Bytes, ℤ, eq_ℤ,
}
use spmfilter.Dict.Valid.{IsValid}
use spmfilter.Settings.{Settings}
use spmfilter.Settings.Codes.{get_smtp_code, set_smtp_code, get_smtp_code-set_smtp_code}
use spmfilter.Smtpd.Reply.{code_line, code_reply, default_reply}

-- The reply by what the table has for the code.
answer : ℤ → Option Bytes → Bytes
answer code none = default_reply code
answer code (some msg) = code_line code msg

code_reply-answer :
    (st : Settings) (d : ℤ) → code_reply st.smtp_codes d ≡ answer d (get_smtp_code st d)
unfolding code_reply get_smtp_code answer
code_reply-answer st d = elim (Option-cases (get_smtp_code st d)) [
  | inl n ↦ rw (n, code_reply) refl
  | inr (msg, e) ↦ rw (e, code_reply) refl
]

-- With a text set for a code, the server answers that code with that text, and every other code as
-- it did before.
pub code_reply-set_smtp_code :
    (st : Settings) (c : ℤ) (msg : Bytes) (d : ℤ)
    → IsValid st.smtp_codes
    → code_reply (set_smtp_code st c msg).smtp_codes d
      ≡ (if eq_ℤ c d then code_line d msg else code_reply st.smtp_codes d)
unfolding answer
code_reply-set_smtp_code st c msg d v =
    code_reply-answer (set_smtp_code st c msg) d
    ∙ (ap (answer d) (get_smtp_code-set_smtp_code st c msg d v) ∙ elim (Bool-cases (eq_ℤ c d)) [
      | inl y ↦ rw y refl
      | inr n ↦ rw n (sym (code_reply-answer st d))
    ])
