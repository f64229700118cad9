-- ===== src/Trace.antt =====
-- src/smf_trace.c: the log lines. The flags that configure_debug and configure_trace_destination set
-- are arguments.
pub mod Buffer
use spmfilter.Base.{
  ℕ, ◌+◌, ◌-◌, Bool, true, false, not, ◌&&◌, ◌||◌, Option, none, some, List, [], ◌∷◌, ◌++◌, ltb,
  leb, ◌==◌, if◌then◌else◌, length, take, Bytes, codes, show_ℕ,
}

pub data Level : Type 0 where
  trace_emerg : Level
  trace_alert : Level
  trace_crit : Level
  trace_err : Level
  trace_warning : Level
  trace_notice : Level
  trace_info : Level
  trace_debug : Level
  trace_lookup : Level

pub data Destination : Type 0 where
  to_syslog : Destination
  to_stderr : Destination

unfoldable pub level_value : Level → ℕ
level_value trace_emerg = 1
level_value trace_alert = 2
level_value trace_crit = 4
level_value trace_err = 8
level_value trace_warning = 16
level_value trace_notice = 32
level_value trace_info = 64
level_value trace_debug = 128
level_value trace_lookup = 256

unfoldable pub trace_to_text : Level → Bytes
unfolding codes
trace_to_text trace_emerg = codes "EMERGENCY"
trace_to_text trace_alert = codes "Alert"
trace_to_text trace_crit = codes "Critical"
trace_to_text trace_err = codes "Error"
trace_to_text trace_warning = codes "Warning"
trace_to_text trace_notice = codes "Notice"
trace_to_text trace_info = codes "Info"
trace_to_text trace_debug = codes "Debug"
trace_to_text trace_lookup = codes "Lookup"

-- What `snprintf` leaves of a text in a buffer of `size` bytes.
abbrev pub fit : ℕ → Bytes → Bytes
fit size s = take (size - 1) s

unfoldable pub format_sid : ℕ → Option Bytes → Bytes
unfolding codes
format_sid size none = []
format_sid size (some sid) = fit size (codes "SID " ++ (sid ++ codes " "))

unfoldable pub format_string : Bool → Level → Bytes → Bytes → ℕ → Option Bytes → Bytes → ℕ → Bytes
unfolding codes
format_string debug_flag level module_name function line sid formatstring size =
    let place = fit size (
      codes "("
      ++ (module_name ++ (codes ":" ++ (function ++ (codes ":" ++ (show_ℕ line ++ codes ")")))))) in
    let text = format_sid size sid ++ (formatstring ++ codes "\n") in
    if debug_flag
    then fit size (trace_to_text level ++ (codes ": " ++ (place ++ (codes " " ++ text))))
    else fit size (trace_to_text level ++ (codes ": " ++ text))

-- LOG_EMERG is 0 and LOG_DEBUG 7.
unfoldable pub priority : Level → ℕ
priority trace_emerg = 0
priority trace_alert = 1
priority trace_crit = 2
priority trace_err = 3
priority trace_warning = 4
priority trace_notice = 5
priority trace_info = 6
priority _ = 7

-- Debug lines are written with the flag only.
unfoldable pub is_wanted : Bool → Level → Bool
unfolding level_value
is_wanted debug_flag level =
    if leb 128 (level_value level) && debug_flag then true else ltb (level_value level) 128

abbrev pub is_syslog : Destination → Bool
is_syslog to_syslog = true
is_syslog to_stderr = false

-- The loop that copies the message, over the bytes in front of the terminator.
unfoldable pub escape : Destination → Bytes → Bytes
escape dest [] = []
escape dest (c ∷ cs) =
    let rest = escape dest cs in
    if c == b'%' && is_syslog dest
    then b'%' ∷ b'%' ∷ rest
    else if c == 10 || c == 13
    then rest
    else c ∷ rest

-- How many bytes of `message` are written: the loop copies the terminator too, and another one follows.
unfoldable pub written : Destination → Bytes → ℕ
written dest t = length (escape dest t) + 2

abbrev pub maxlen : ℕ
maxlen = 1024

pub data Logged : Type 0 where
  sent : Destination → ℕ → Bytes → Logged

-- `trace`, for what vsnprintf makes of a format: a line if the level is wanted, and none of all where
-- `message` is too short for it.
unfoldable pub trace :
    (Bytes → Bytes)
    → Bool
    → Destination
    → Level
    → Bytes
    → Bytes
    → ℕ
    → Option Bytes
    → Bytes
    → Option (Option Logged)
trace vsnprintf debug_flag dest level module_name function line sid formatstring =
    let format = format_string debug_flag level module_name function line sid formatstring maxlen in
    let t = fit maxlen (vsnprintf format) in
    if leb (written dest t) maxlen
    then some (
        if is_wanted debug_flag level
        then some (sent dest (priority level) (escape dest t))
        else none)
    else none
