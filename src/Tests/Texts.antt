-- ===== src/Tests/Texts.antt =====
-- Examples for the operations on texts.
use spmfilter.Base.{none, arith, IsText, ◌↔◌, ◌+◌, ◌<◌, length}
use spmfilter.Base.{◌≡◌, refl, true, false, [], ◌∷◌, ◌++◌, Bytes, codes, equal, contains}
use spmfilter.Core.Split.{Splits, strsplit, strsplit-Splits}
use spmfilter.Core.Expand.{choose, expand_loop, expand_string, expanded}
use spmfilter.Core.Expand.Meaning.{meaning, expand_string-meaning}
use spmfilter.EmailAddress.{is_empty, get_simplified, is_empty-simplify}
use spmfilter.Trace.{trace, trace_debug, to_syslog, maxlen, fit, format_string}
use spmfilter.Trace.Buffer.{dropped, doubled, trace-none}
use spmfilter.Message.{IsLine, is_blank_line, lines, write_skip_header, write_skip_header_body}

strsplit-Splits_example : Splits b'@' (codes "a@b@") (strsplit (codes "a@b@") (b'@' ∷ []))
strsplit-Splits_example = strsplit-Splits b'@' (codes "a@b@")

expand_string-meaning_example :
    expand_string (codes "%u at %d") (codes "al@mx") ≡ meaning (codes "al@mx") (codes "%u at %d")
expand_string-meaning_example = expand_string-meaning (codes "%u at %d") (codes "al@mx")

expands : expand_string (codes "%u at %d") (codes "al@mx") ≡ expanded 2 (codes "al at mx")
unfolding expand_string expand_loop codes choose strsplit
expands = refl

abbrev subject : Bytes
subject = codes "Subject: x\n"

subject-IsLine : IsLine subject
unfolding codes contains is_blank_line equal
subject-IsLine = record {
  text = codes "Subject: x";
  ends = refl;
  one_line = refl;
  not_blank = refl;
}

carriage_return-blank : is_blank_line (codes "\r" ++ b'\n' ∷ []) ≡ true
unfolding codes is_blank_line equal
carriage_return-blank = refl

carriage_return-one_line : contains b'\n' (codes "\r") ≡ false
unfolding codes contains
carriage_return-one_line = refl

write_skip_header_body_example :
    write_skip_header (lines (subject ∷ []) ++ (codes "\r" ++ (b'\n' ∷ codes "hello")))
    ≡ codes "hello"
write_skip_header_body_example =
    write_skip_header_body (subject ∷ []) (codes "\r") (codes "hello") (subject-IsLine, tt)
      carriage_return-one_line carriage_return-blank

blank_address : IsText (codes " \t >")
unfolding codes
blank_address = (omega arith, (omega arith, (omega arith, (omega arith, tt))))

-- A parser that leaves the address in its brackets.
abbrev bracketed : Bytes → Bytes
bracketed email = b'<' ∷ email

is_empty-simplify_example :
    (is_empty (bracketed (codes " \t >")) ≡ true) ↔ (get_simplified bracketed (codes " \t >") ≡ [])
is_empty-simplify_example =
    is_empty-simplify bracketed (codes " \t >") (codes " \t >") refl blank_address

-- A format whose conversions are left as they are.
trace-none_example :
    let t = fit maxlen (
      format_string true trace_debug (codes "smtpd") (codes "load") 812 none (codes "up") maxlen) in
    (trace (λ s. s) true to_syslog trace_debug (codes "smtpd") (codes "load") 812 none (codes "up")
      ≡ none)
    ↔ (1022 + dropped t < length t + doubled to_syslog t)
trace-none_example =
    trace-none (λ s. s) true to_syslog trace_debug (codes "smtpd") (codes "load") 812 none
      (codes "up")
