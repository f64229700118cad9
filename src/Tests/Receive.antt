-- ===== src/Tests/Receive.antt =====
-- Examples for a message that is received.
use spmfilter.Base.{
  ◌≡◌, List, IsText, Bool, true, ltb, ◌&&◌, [], ◌∷◌, All, arith, contains, refl, Bytes, codes,
}
use spmfilter.Smtpd.Data.Receive.{receive, nothing_received}
use spmfilter.Smtpd.Data.Spool.{concat}
use spmfilter.Internal.Readline.{Line}
use spmfilter.Smtpd.Data.RoundTrip.{IsSendable, ArrivesWhole, whole, sent, receive-stuff}
use spmfilter.Smtpd.Data.Process.{process_data}
use spmfilter.Smtpd.Data.Answer.{IsAnswered, process_data-IsAnswered}
use spmfilter.Tests.Fixture.{disk, mx, with_modules, ready}

-- A header, a blank line and a body with a dot in front.
abbrev message : List Bytes
message = codes "TO: a@b\r\n" ∷ codes "\r\n" ∷ codes ".x\r\n" ∷ codes "..\r\n" ∷ []

abbrev later : List Line
later = whole (codes "QUIT\r\n") ∷ []

abbrev arrived : List Line
arrived = sent message later

no_zero : Bytes → Bool
no_zero [] = true
no_zero (c ∷ cs) = ltb 0 c && no_zero cs

text_lem : (s : Bytes) → no_zero s ≡ true → IsText s
unfolding no_zero
text_lem [] h = tt
text_lem (c ∷ cs) h = (ground arith, text_lem cs (ground arith))

message-IsSendable : All IsSendable message
unfolding IsSendable codes contains no_zero
message-IsSendable = (
  (text_lem (codes "TO: a@b\r\n") refl, (omega arith, (codes "TO: a@b\r", (refl, refl)))),
  (
    (text_lem (codes "\r\n") refl, (omega arith, (codes "\r", (refl, refl)))),
    (
      (text_lem (codes ".x\r\n") refl, (omega arith, (codes ".x\r", (refl, refl)))),
      ((text_lem (codes "..\r\n") refl, (omega arith, (codes "..\r", (refl, refl)))), tt),
    ),
  ),
)

receive-stuff_example :
    let r = receive (sent message later) nothing_received in
    (r.0.spool ≡ concat message) × ((r.1 ≡ later) × All ArrivesWhole message)
receive-stuff_example = receive-stuff message later message-IsSendable

process_data-IsAnswered_example :
    IsAnswered
      (with_modules (codes "reject" ∷ []))
      ready.out
      (process_data disk mx (with_modules (codes "reject" ∷ [])) arrived ready).0.out
process_data-IsAnswered_example =
    process_data-IsAnswered disk mx (with_modules (codes "reject" ∷ [])) arrived ready
