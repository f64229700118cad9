-- ===== src/Trace/Buffer.antt =====
-- When a log line fits into the buffer of `trace`.
use spmfilter.Base.{
  ℕ, ◌+◌, ◌<◌, ◌≡◌, refl, ◌↔◌, Bool, true, false, Option, none, some, [], ◌∷◌, ◌==◌, ◌||◌, leb,
  if◌then◌else◌, arith, length, Bytes,
}
use spmfilter.Trace.{
  Level, Destination, to_syslog, to_stderr, escape, written, maxlen, fit, format_string, is_wanted,
  trace, sent, priority,
}

count : (ℕ → Bool) → Bytes → ℕ
count p [] = 0
count p (c ∷ cs) = (if p c then 1 else 0) + count p cs

-- The signs that take two bytes, and those that take none.
abbrev pub doubled : Destination → Bytes → ℕ
unfolding count
doubled to_syslog t = count (λ c. c == b'%') t
doubled to_stderr t = 0

abbrev pub dropped : Bytes → ℕ
unfolding count
dropped t = count (λ c. c == 10 || c == 13) t

length-escape :
    (dest : Destination) (t : Bytes)
    → length (escape dest t) + dropped t ≡ length t + doubled dest t
unfolding escape count
length-escape to_syslog [] = refl
length-escape to_stderr [] = refl
length-escape to_syslog (c ∷ cs) = ground (arith, length-escape to_syslog cs)
length-escape to_stderr (c ∷ cs) = ground (arith, length-escape to_stderr cs)

leb_iff : (a b : ℕ) → (leb a b ≡ false) ↔ (b < a)
leb_iff a b = ground arith

if_none : {A : Type 0} (b : Bool) (x : A) → ((if b then some x else none) ≡ none) ↔ (b ≡ false)
if_none true x = (λ e. absurd (cc), λ e. absurd (cc))
if_none false x = (λ e. refl, λ e. refl)

-- `trace` writes behind the end of its buffer for exactly those lines that have, beside their line breaks,
-- more than 1022 bytes, where each % counts twice if the line goes to syslog.
pub trace-none :
    (vsnprintf : Bytes → Bytes) (debug_flag : Bool) (dest : Destination) (level : Level)
    (module_name function : Bytes) (line : ℕ) (sid : Option Bytes) (formatstring : Bytes)
    → let t = fit maxlen (
        vsnprintf
          (format_string debug_flag level module_name function line sid formatstring maxlen)) in
      (trace vsnprintf debug_flag dest level module_name function line sid formatstring ≡ none)
      ↔ (1022 + dropped t < length t + doubled dest t)
unfolding trace written
trace-none vsnprintf debug_flag dest level module_name function line sid formatstring =
    let t = fit maxlen (
      vsnprintf
        (format_string debug_flag level module_name function line sid formatstring maxlen)) in
    let n = length-escape dest t in
    let tests = leb_iff (length (escape dest t) + 2) 1024 in
    let branch = if_none (leb (length (escape dest t) + 2) 1024) (
      if is_wanted debug_flag level
      then some (sent dest (priority level) (escape dest t))
      else none) in
    (λ h. omega (arith, n, tests.0 (branch.0 h)), λ h. branch.1 (tests.1 (omega (arith, n, h))))
