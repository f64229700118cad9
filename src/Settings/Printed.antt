-- ===== src/Settings/Printed.antt =====
-- A line that names a key and a quoted value, as `_parse_line` reads it back.
use spmfilter.Base.{
  ℕ, ◌-◌, ◌<◌, ◌≡◌, refl, sym, ◌∙◌, ◌≢◌, inl, inr, false, ◌||◌, some, [], ◌∷◌, ◌++◌, append-nil,
  append_assoc, arith, ltb, ◌==◌, Bool-cases, length, get_or, length-append, get_or-beyond, Bytes,
  codes, equal, equal_iff, is_space, contains,
}
use mathlib.Core.Path.{subst}
use spmfilter.Core.Strip.{strstrip}
use spmfilter.Core.Strip.Append.{strstrip-append, get_or-append_0}
use spmfilter.Settings.Strtol.{skip_spaces}
use spmfilter.Settings.Line.{
  line_value, until, from, nonempty, scan_quoted, scan_value, empty_quotes, parse_value, parse_line,
}

unfoldable pub print_line : Bytes → Bytes → Bytes
unfolding codes
print_line key v = key ++ (codes " = \"" ++ (v ++ codes "\""))

-- A key as a user writes it.
pub record IsKey (key : Bytes) : Type 0 where
  pub no_equals : contains b'=' key ≡ false
  pub some_byte : get_or key 0 0 == 0 ≡ false
  pub first_tight : is_space (get_or key 0 0) ≡ false
  pub last_tight : is_space (get_or key (length key - 1) 0) ≡ false
  pub no_comment : (get_or key 0 0 == b'#' || get_or key 0 0 == b';') ≡ false
  pub no_section : get_or key 0 0 == b'[' ≡ false

pub record IsValue (v : Bytes) : Type 0 where
  pub no_quote : contains b'"' v ≡ false
  pub not_empty : 0 < length v
  pub not_quotes : equal v (codes "''") ≡ false

until-append : (c : ℕ) (s t : Bytes) → contains c s ≡ false → until c (s ++ t) ≡ s ++ until c t
unfolding contains until
until-append c [] t h = refl
until-append c (x ∷ s) t h =
    let n : x == c ≡ false = ground arith in
    let more : contains c s ≡ false = ground arith in rw (n, until-append c s t more) refl

from-append : (c : ℕ) (s t : Bytes) → contains c s ≡ false → from c (s ++ t) ≡ from c t
unfolding contains from
from-append c [] t h = refl
from-append c (x ∷ s) t h =
    let n : x == c ≡ false = ground arith in
    let more : contains c s ≡ false = ground arith in rw (n, from-append c s t more) refl

nonempty-some : (v : Bytes) → 0 < length v → nonempty v ≡ some v
unfolding nonempty
nonempty-some [] h = absurd (omega arith)
nonempty-some (x ∷ v) h = refl

-- The first byte of a line is the key's, and its last byte the quote.
print_line-first : (key v : Bytes) → 0 < length key → get_or (print_line key v) 0 0 ≡ get_or key 0 0
unfolding print_line
print_line-first [] v h = absurd (omega arith)
print_line-first (x ∷ key) v h = refl

last-append : (s : Bytes) (c : ℕ) → get_or (s ++ c ∷ []) (length (s ++ c ∷ []) - 1) 0 ≡ c
last-append s c =
    let e : length (s ++ c ∷ []) - 1 ≡ length s = omega (arith, length-append s (c ∷ [])) in
    rw e (get_or-append_0 s c)

print_line-last :
    (key v : Bytes) → get_or (print_line key v) (length (print_line key v) - 1) 0 ≡ b'"'
unfolding print_line codes
print_line-last key v =
    let e : key ++ (codes " = \"" ++ (v ++ b'"' ∷ []))
        ≡ (key ++ (codes " = \"" ++ v)) ++ b'"' ∷ [] =
      sym (append_assoc key (codes " = \"" ++ v) (b'"' ∷ [])) in
    rw e (last-append (key ++ (codes " = \"" ++ v)) b'"')

print_line-long : (key v : Bytes) → 0 < length key → 0 < length (print_line key v)
unfolding print_line
print_line-long [] v h = absurd (omega arith)
print_line-long (x ∷ key) v h = omega arith

contains_quote : (v : Bytes) → v ≡ codes "\"\"" → contains b'"' v ≢ false
unfolding contains codes
contains_quote v e h =
    let h' : contains b'"' (codes "\"\"") ≡ false = subst (λ s. contains b'"' s ≡ false) e h in
    absurd (cc)

empty_quotes-IsValue : (v : Bytes) → IsValue v → empty_quotes v ≡ v
unfolding empty_quotes
empty_quotes-IsValue v w = elim (Bool-cases (equal v (codes "\"\""))) [
  | inl y ↦ absurd (contains_quote v ((equal_iff v (codes "\"\"")).0 y) w.no_quote)
  | inr n ↦ rw (n, w.not_quotes) refl
]

scan_quoted-print : (v : Bytes) → IsValue v → scan_quoted b'"' (b'"' ∷ (v ++ b'"' ∷ [])) ≡ some v
unfolding scan_quoted until
scan_quoted-print v w =
    let u : until b'"' (v ++ b'"' ∷ []) ≡ v =
      until-append b'"' v (b'"' ∷ []) w.no_quote ∙ append-nil v in
    rw u (nonempty-some v w.not_empty)

scan_value-print : (v : Bytes) → IsValue v → scan_value (b'"' ∷ (v ++ b'"' ∷ [])) ≡ some v
unfolding scan_value
scan_value-print v w = rw (scan_value, scan_quoted-print v w) refl

-- Behind the key stand a space, the `=` and the value in quotes.
parse_value-print :
    (key v : Bytes)
    → IsKey key
    → IsValue v
    → parse_value (print_line key v) ≡ line_value (key ++ b' ' ∷ []) v
unfolding parse_value print_line codes until from skip_spaces is_space
parse_value-print key v k w =
    let un : until b'=' (print_line key v) ≡ key ++ b' ' ∷ [] =
      until-append b'=' key (codes " = \"" ++ (v ++ codes "\"")) k.no_equals in
    let fr : from b'=' (print_line key v) ≡ b'=' ∷ (b' ' ∷ (b'"' ∷ (v ++ b'"' ∷ []))) =
      from-append b'=' key (codes " = \"" ++ (v ++ codes "\"")) k.no_equals in
    let ne = nonempty-some (key ++ b' ' ∷ []) (omega (arith, length-append key (b' ' ∷ []))) in
    rw (parse_value, un, ne, fr, scan_value-print v w, empty_quotes-IsValue v w) refl

-- What `_parse_line` finds in a line that names a key and a value in double quotes is that key, with the
-- space behind it, and that value.
pub parse_line-print_line :
    (key v : Bytes)
    → IsKey key
    → IsValue v
    → parse_line (print_line key v ++ b'\n' ∷ []) ≡ line_value (key ++ b' ' ∷ []) v
unfolding parse_line is_space
parse_line-print_line key v k w =
    let t = print_line key v in
    let some_byte : 0 < length key = ground (arith, get_or-beyond 0 0 key) in
    let first = print_line-first key v some_byte in
    let last : get_or t (length t - 1) 0 ≡ b'"' = print_line-last key v in
    let long : ltb (length t) 1 ≡ false = ground (arith, print_line-long key v some_byte) in
    let stripped : strstrip (t ++ b'\n' ∷ []) ≡ t =
      strstrip-append t b'\n' (rw first k.some_byte) (rw first k.first_tight) (rw last refl) refl in
    rw (stripped, long, first, k.no_comment, k.no_section) (parse_value-print key v k w)
