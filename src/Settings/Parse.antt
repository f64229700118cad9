-- ===== src/Settings/Parse.antt =====
-- `smf_settings_parse_config` of src/smf_settings.c: the lines of a file and the checks behind them. The
-- count of errors is not kept, since the source only compares it with 0, below which it never falls.
use spmfilter.Base.{
  ℕ, zero, suc, ◌-◌, Bool, true, false, ◌||◌, Option, none, some, [], ◌∷◌, ◌++◌, ◌==◌,
  if◌then◌else◌, length, get_or, take, Bytes, codes, equal,
}
use spmfilter.Core.Strip.{strstrip}
use spmfilter.Settings.{Settings}
use spmfilter.Settings.Line.{
  LineStatus, line_error, line_empty, line_comment, line_section, line_value, parse_line,
}
use spmfilter.Settings.Values.{set_config_value, config_group}

-- `section` is the buffer. `clean_section` is NULL at first and then the buffer too, in which
-- `smf_core_strstrip` works: `in_section` tells the two apart. `kept` is the first `last` bytes of `line`.
pub record Parser : Type 0 where
  pub settings : Settings
  pub section : Bytes
  pub in_section : Bool
  pub kept : Bytes

unfoldable pub parser_new : Settings → Parser
parser_new st = record { settings = st; section = []; in_section = false; kept = [] }

-- `undefined`: C says nothing of what the program does, since it compares a NULL section, or goes on
-- with a field that points to memory that is freed.
pub data Outcome : Type 0 where
  done : Parser → Outcome
  undefined : Outcome
  running : Outcome

-- fgets with line_room for `n` bytes before the terminator, and what it leaves of the file.
unfoldable pub fgets : ℕ → Bytes → Bytes × Bytes
fgets zero s = ([], s)
fgets (suc n) [] = ([], [])
fgets (suc n) (c ∷ cs) =
    let (line, rest) = fgets n cs in if c == b'\n' then (c ∷ [], cs) else (c ∷ line, rest)

unfoldable pub is_own_section : Bytes → Bool
unfolding codes
is_own_section s =
    equal s (codes "global")
    || (equal s (codes "smtpd") || (equal s (codes "sql") || equal s (codes "ldap")))

unfoldable pub store_value : Settings → Bytes → Bytes → Bytes → Option Settings
store_value st section key v =
    if is_own_section section
    then set_config_value st section key v
    else config_group section key st v

-- What sscanf leaves in a buffer.
abbrev pub some_or : Bytes → Option Bytes → Bytes
some_or b none = b
some_or b (some s) = s

abbrev pub with_settings : Parser → Option Settings → Option Parser
with_settings p none = none
with_settings p (some st) = some (record p { settings = st })

-- `last = 0`
abbrev pub restart : Option Parser → Option Parser
restart none = none
restart (some p) = some (record p { kept = [] })

-- The cases of the `switch`.
unfoldable pub obey : Parser → LineStatus → Option Parser
obey p line_error = some p
obey p line_empty = some p
obey p line_comment = some p
obey p (line_section b) =
    some (record p { section = strstrip (some_or p.section b); in_section = true })
obey p (line_value key v) =
    if p.in_section
    then with_settings p (store_value p.settings p.section (strstrip key) (strstrip v))
    else none

unfoldable pub handle_line : Parser → Bytes → Option Parser
handle_line p line = obey p (parse_line line)

-- One turn of the loop, for the text that stands in `line` behind fgets.
unfoldable pub turn : Parser → Bytes → Option Parser
turn p line =
    let len = length line - 1 in
    if len == 0
    then some p
    else if get_or line len 0 == b'\\'
    then some (record p { kept = take len line })
    else restart (handle_line p line)

-- `MAX_LINE - last`, less the terminator
abbrev pub line_room : Parser → ℕ
line_room p = 200 - length p.kept - 1

unfoldable pub parse_lines : ℕ → Parser → Bytes → Outcome
parse_lines zero p s = running
parse_lines (suc f) p [] = done p
parse_lines (suc f) p (c ∷ cs) =
    let (chunk, rest) = fgets (line_room p) (c ∷ cs) in
    elim (turn p (p.kept ++ chunk)) [ none ↦ undefined | some q ↦ parse_lines f q rest ]
