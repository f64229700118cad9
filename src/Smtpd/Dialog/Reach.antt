-- ===== src/Smtpd/Dialog/Reach.antt =====
-- The connections that a client can bring about, and what a HELO without a name does to one.
use spmfilter.Base.{◌≡◌, false, List, ◌∷◌}
use spmfilter.Internal.Readline.{Line}
use spmfilter.Settings.{Settings}
use spmfilter.System.{System}
use spmfilter.Smtpd.Host.{Host}
use spmfilter.Smtpd.Dialog.{command, is_quit, Conn, execute, connected}
use spmfilter.Smtpd.Dialog.Phases.{HasParties, IsReady, is_nameless, execute-IsReady}

-- The lines that are left and the connection, after any number of requests from the greeting on,
-- none of them a HELO or EHLO without a name.
pub data Reach {M W : Type 0} (sys : System M W) (host : Host) (st : Settings) (lines : List Line)
    (w : W) : List Line → Conn M W → Type 0 where
  greeted : Reach sys host st lines w lines (connected sys host st w)
  request :
      {l : Line} {ls : List Line} {c : Conn M W}
      → Reach sys host st lines w (l ∷ ls) c
      → is_quit (command l.text) ≡ false
      → is_nameless (command l.text) l.text ≡ false
      → Reach sys host st lines w
          (execute sys host st (command l.text) l.text ls c).1
          (execute sys host st (command l.text) l.text ls c).0

module _ {M W : Type 0} (sys : System M W) (host : Host) (st : Settings) where
  -- Where a client gives a name with every HELO and EHLO, the server takes the text of a message
  -- only for an envelope with a sender and a recipient: in every connection that its requests lead
  -- to, ST_MAIL means that there is a sender, and ST_RCPT that there is a recipient too.
  pub Reach-IsReady :
      {lines : List Line} {w : W} {ls : List Line} {c : Conn M W}
      → Reach sys host st lines w ls c
      → IsReady c
  unfolding connected IsReady HasParties
  Reach-IsReady greeted = tt
  Reach-IsReady (request {l} {ls} {c} r q n) =
      execute-IsReady sys host st (command l.text) l.text ls c n (Reach-IsReady r)
