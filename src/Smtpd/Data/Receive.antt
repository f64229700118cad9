-- ===== src/Smtpd/Data/Receive.antt =====
-- The loop that receives the lines of a message.
use spmfilter.Base.{
  ℕ, ◌+◌, Bool, true, false, not, ◌&&◌, ◌||◌, Option, none, some, List, [], ◌∷◌, ◌++◌, ◌==◌,
  if◌then◌else◌, Bytes, c_text, codes, strncasecmp_eq, strncmp_eq, contains,
}
use spmfilter.Internal.Linebreak.{determine_linebreak}
use spmfilter.Internal.Readline.{Line}

-- `smf_smtpd_stuffing`: the first dot goes; the flag is `found`.
unfoldable pub stuffing_loop : Bool → Bytes → Bytes
stuffing_loop found [] = []
stuffing_loop found (c ∷ cs) =
    let kept = c ∷ stuffing_loop found cs in
    let dropped = stuffing_loop true cs in if not (c == b'.') || found then kept else dropped

unfoldable pub stuffing : Bytes → Bytes
stuffing chain = stuffing_loop false chain

-- The variables of the loop, and what has been written to the spool file.
pub record Received : Type 0 where
  pub found_mid : Bool
  pub found_to : Bool
  pub found_from : Bool
  pub found_date : Bool
  pub found_header : Bool
  pub in_header : Bool
  pub nl : Option Bytes
  pub spool : Bytes
  pub size : ℕ

abbrev pub nothing_received : Received
nothing_received = record {
  found_mid = false;
  found_to = false;
  found_from = false;
  found_date = false;
  found_header = false;
  in_header = true;
  nl = none;
  spool = [];
  size = 0;
}

-- The end of the message: a line that is a dot.
unfoldable pub is_end : Bytes → Bool
is_end buf = strncasecmp_eq buf (codes ".\r\n") 3 || strncasecmp_eq buf (codes ".\n") 2

-- `if (strncasecmp(buf,".",1)==0) smf_smtpd_stuffing(buf)`
unfoldable pub unstuff : Bytes → Bytes
unstuff buf = if strncasecmp_eq buf (codes ".") 1 then stuffing buf else buf

-- The regular expression `^Message-ID:`, case ignored.
unfoldable pub is_message_id : Bytes → Bool
is_message_id buf = strncasecmp_eq buf (codes "Message-ID:") 11

-- The regular expression `[A-Za-z0-9\._-]*:.*`, which is not anchored: a colon, anywhere.
unfoldable pub is_header_line : Bytes → Bool
is_header_line buf = contains b':' buf

-- The blank line that ends the header.
unfoldable pub is_blank : Bytes → Bool
is_blank buf =
    strncmp_eq buf (codes "\n") 1
    || (strncmp_eq buf (codes "\r\n") 2 || strncmp_eq buf (codes "\r") 1)

-- The body of the loop for a line that has been unstuffed; `br` is what was read. The string
-- functions, `regexec` and the `strlen` of the `fwrite` see it up to its first zero byte.
unfoldable pub take_line : Received → Bytes → ℕ → Received
take_line d line br =
    let buf = c_text line in
    record {
      found_mid = if not d.found_mid && d.in_header then is_message_id buf else d.found_mid;
      found_to = if strncasecmp_eq buf (codes "To:") 3 && d.in_header then true else d.found_to;
      found_from =
          if strncasecmp_eq buf (codes "From:") 5 && d.in_header then true else d.found_from;
      found_date =
          if strncasecmp_eq buf (codes "Date:") 5 && d.in_header then true else d.found_date;
      found_header = if d.found_header then true else is_header_line buf;
      in_header = if is_blank buf then false else d.in_header;
      nl = elim d.nl [ none ↦ determine_linebreak buf | some n ↦ some n ];
      spool = d.spool ++ buf;
      size = d.size + br;
    }

-- `while((br = smf_internal_readline(...)) > 0)`: what has been received, and the lines that follow.
-- The loop ends at the end of the input too.
unfoldable pub receive : List Line → Received → Received × List Line
receive [] d = (d, [])
receive (l ∷ lines) d =
    let next = receive lines (take_line d (unstuff l.text) l.count) in
    if is_end l.text then (d, lines) else next
