-- ===== src/Tests/Dialog.antt =====
-- Examples for the dialog with a client.
use spmfilter.Base.{ℕ, ◌≡◌, refl, some, List, [], ◌∷◌, Bytes, codes, to_lower, strncasecmp_eq}
use spmfilter.Internal.Readline.{Line}
use spmfilter.Smtpd.Data.RoundTrip.{whole}
use spmfilter.Settings.{Settings}
use spmfilter.Envelope.{empty_envelope}
use spmfilter.Smtpd.Dialog.{Conn, rcpt_cmd, mail, command, is_quit, execute, connected}
use spmfilter.Smtpd.Dialog.Phases.{IsReady, is_nameless}
use spmfilter.Smtpd.Dialog.Reach.{Reach, greeted, request, Reach-IsReady}
use spmfilter.Smtpd.Dialog.Replies.{Answers, takes_data, execute-Answers}
use spmfilter.Tests.Fixture.{Files, disk, mx, with_modules, ready}

abbrev site : Settings
site = with_modules []

abbrev mail_line : Bytes
mail_line = codes "MAIL FROM:<a@b>\r\n"

abbrev rcpt_line : Bytes
rcpt_line = codes "rcpt to: <c@d>\r\n"

abbrev quit_line : List Line
quit_line = whole (codes "QUIT\r\n") ∷ []

abbrev client : List Line
client = whole mail_line ∷ whole rcpt_line ∷ quit_line

-- The connection after MAIL, and after RCPT.
abbrev after_mail : Conn ℕ Files
after_mail =
    (execute disk mx site (command mail_line) mail_line (whole rcpt_line ∷ quit_line)
      (connected disk mx site [])).0

abbrev after_rcpt : Conn ℕ Files
after_rcpt = (execute disk mx site (command rcpt_line) rcpt_line quit_line after_mail).0

two_requests : Reach disk mx site client [] quit_line after_rcpt
unfolding command is_quit is_nameless codes strncasecmp_eq to_lower execute
two_requests = request (request greeted refl refl) refl refl

Reach-IsReady_example : IsReady after_rcpt
Reach-IsReady_example = Reach-IsReady disk mx site two_requests

abbrev opened : Conn ℕ Files
opened = record {
  phase = mail;
  state = record ready {
    session = record (ready.session) {
      envelope = record empty_envelope {
        sender = some (codes "a@b");
        recipients = codes "c@d" ∷ [];
      };
    };
  };
  sessions = 1;
}

execute-Answers_example :
    let r = execute disk mx site rcpt_cmd rcpt_line quit_line opened in
    Answers opened r.0 × (r.1 ≡ quit_line)
unfolding takes_data
execute-Answers_example = execute-Answers disk mx site rcpt_cmd rcpt_line quit_line opened refl
