-- ===== src/Settings/Line.antt =====
-- `_parse_line` of src/smf_settings.c. sscanf stops at the first directive that does not match, and a
-- set of bytes matches one byte or more.
use spmfilter.Base.{
  ℕ, ◌-◌, Bool, ◌&&◌, ◌||◌, Option, none, some, [], ◌∷◌, ltb, ◌==◌, if◌then◌else◌, length, get_or,
  drop, Bytes, codes, equal,
}
use spmfilter.Core.Strip.{strstrip}
use spmfilter.Settings.Strtol.{skip_spaces}

-- `_line_status` with what the buffers get. The section's buffer is left as it is for `[]`.
pub data LineStatus : Type 0 where
  line_error : LineStatus
  line_empty : LineStatus
  line_comment : LineStatus
  line_section : Option Bytes → LineStatus
  line_value : Bytes → Bytes → LineStatus

-- `%[^c]`: the bytes in front of the first `c`, and what follows from there.
unfoldable pub until : ℕ → Bytes → Bytes
until c [] = []
until c (x ∷ xs) = let later = x ∷ until c xs in if x == c then [] else later

unfoldable pub from : ℕ → Bytes → Bytes
from c [] = []
from c (x ∷ xs) = let later = from c xs in if x == c then x ∷ xs else later

unfoldable pub nonempty : Bytes → Option Bytes
nonempty [] = none
nonempty (x ∷ xs) = some (x ∷ xs)

-- `q%[^q]q`; the last quote is matched behind the last value that is stored.
unfoldable pub scan_quoted : ℕ → Bytes → Option Bytes
scan_quoted q s = if get_or s 0 0 == q then nonempty (until q (drop 1 s)) else none

-- The three formats of a value, in turn, behind `%[^=] = `.
unfoldable pub scan_value : Bytes → Option Bytes
scan_value rest = elim (scan_quoted b'"' rest) [
  | some v ↦ some v
  | none ↦ elim (scan_quoted b'\'' rest) [ some v ↦ some v | none ↦ nonempty (until b'#' rest) ]
]

unfoldable pub empty_quotes : Bytes → Bytes
unfolding codes
empty_quotes v = if equal v (codes "\"\"") || equal v (codes "''") then [] else v

-- `%[^=] = %[;#]` and `%[^=] %[=]`, of which one matches if a key and a `=` are there.
unfoldable pub scan_empty : Bytes → Bool
scan_empty line =
    let rest = skip_spaces (drop 1 (from b'=' line)) in
    (get_or rest 0 0 == b';' || get_or rest 0 0 == b'#') || get_or (from b'=' line) 0 0 == b'='

unfoldable pub parse_value : Bytes → LineStatus
parse_value line = elim (nonempty (until b'=' line)) [
  | none ↦ line_error
  | some key ↦
      if get_or (from b'=' line) 0 0 == b'='
      then elim (scan_value (skip_spaces (drop 1 (from b'=' line)))) [
        | some v ↦ line_value key (empty_quotes v)
        | none ↦ if scan_empty line then line_value key [] else line_error
      ]
      else line_error
]

unfoldable pub parse_line : Bytes → LineStatus
parse_line input_line =
    let line = strstrip input_line in
    let first = get_or line 0 0 in
    let last = get_or line (length line - 1) 0 in
    if ltb (length line) 1
    then line_empty
    else if first == b'#' || first == b';'
    then line_comment
    else if first == b'[' && last == b']'
    then line_section (nonempty (until b']' (drop 1 line)))
    else parse_value line
