-- ===== src/Smtpd/Data/RoundTrip.antt =====
-- What a client stuffs, the server takes off again.
use spmfilter.Base.{
  ℕ, ◌≡◌, refl, ◌∙◌, inl, inr, true, false, List, [], ◌∷◌, map, arith, ◌==◌, if◌then◌else◌,
  Bool-cases, length, Bytes, c_text, c_text_whole, IsText, All, contains, length-append,
  append_assoc, ◌+◌, ◌≤◌, ◌<◌, ◌++◌, ap, codes, to_lower, strncasecmp_eq,
}
use mathlib.Core.Path.{subst}
use spmfilter.Internal.Readline.{Line, Source, readline}
use spmfilter.Internal.Chunks.{IsSteady, stream, Lines, readline-Lines}
use spmfilter.Smtpd.Data.Receive.{
  nothing_received, is_end, unstuff, stuffing, stuffing_loop, receive,
}
use spmfilter.Smtpd.Data.Spool.{received, before_end, after_end, concat, receive_lem}

-- What RFC 5321, section 4.5.2 asks of a client: a line that begins with a dot gets another one.
unfoldable pub stuff : Bytes → Bytes
stuff [] = []
stuff (c ∷ l) = if c == b'.' then b'.' ∷ c ∷ l else c ∷ l

to_lower_dot : (c : ℕ) → (to_lower c == b'.') ≡ (c == b'.')
unfolding to_lower
to_lower_dot c = ground arith

stuffing_loop_found : (l : Bytes) → stuffing_loop true l ≡ l
unfolding stuffing_loop
stuffing_loop_found [] = refl
stuffing_loop_found (c ∷ l) = ground (arith, stuffing_loop_found l)

unstuff-stuff : (l : Bytes) → unstuff (stuff l) ≡ l
unfolding unstuff stuff stuffing stuffing_loop strncasecmp_eq codes
unstuff-stuff [] = refl
unstuff-stuff (c ∷ l) = elim (Bool-cases (c == b'.')) [
  | inl y ↦ rw (y, to_lower_dot b'.', stuffing_loop_found l) ground arith
  | inr n ↦ rw (n, to_lower_dot c) ground arith
]

is_end-stuff : (l : Bytes) → is_end (stuff l) ≡ false
unfolding is_end stuff strncasecmp_eq codes
is_end-stuff [] = refl
is_end-stuff (c ∷ l) = elim (Bool-cases (c == b'.')) [
  | inl y ↦ rw y ground arith
  | inr n ↦ rw (n, to_lower_dot c) ground arith
]

-- A line that arrives whole.
abbrev pub whole : Bytes → Line
whole l = record { text = l; count = length l }

-- What a client sends: the lines, stuffed, and the dot.
abbrev pub sent : List Bytes → List Line → List Line
sent [] more = whole (codes ".\r\n") ∷ more
sent (l ∷ ls) more = whole (stuff l) ∷ sent ls more

-- A line that a client may send: it has no zero byte, ends in its only newline, and fits into the
-- buffer of the loop with a dot in front.
unfoldable pub IsSendable : Bytes → Type 0
IsSendable l =
    IsText l
    × ((length l + 1 < 1024)
        × ((text : Bytes) × ((l ≡ text ++ b'\n' ∷ []) × (contains b'\n' text ≡ false))))

-- What is written for such a line is the line.
received-stuff : (l : Bytes) → IsSendable l → received (whole (stuff l)) ≡ l
unfolding IsSendable
received-stuff l h = ap c_text (unstuff-stuff l) ∙ c_text_whole l h.0

-- A line with a dot in front still ends in its only newline.
stuff-ends :
    (l text : Bytes)
    → l ≡ text ++ b'\n' ∷ []
    → contains b'\n' text ≡ false
    → (u : Bytes) × ((stuff l ≡ u ++ b'\n' ∷ []) × (contains b'\n' u ≡ false))
unfolding stuff contains
stuff-ends l [] e h = ([], (rw e refl, refl))
stuff-ends l (c ∷ cs) e h = elim (Bool-cases (c == b'.')) [
  | inl y ↦ (b'.' ∷ c ∷ cs, (rw (e, y) refl, ground arith))
  | inr n ↦ (c ∷ cs, (rw (e, n) refl, h))
]

length-stuff : (l : Bytes) → length (stuff l) ≤ length l + 1
unfolding stuff
length-stuff [] = omega arith
length-stuff (c ∷ l) = ground arith

-- However the calls of `read` cut the input, one call of `smf_internal_readline` returns the line.
unfoldable pub ArrivesWhole : Bytes → Type 0
ArrivesWhole l =
    (rest : Bytes) (s : Source)
    → All IsSteady s.reads
    → stream s ≡ stuff l ++ rest
    → Lines (whole (stuff l)) rest (readline 1024 s)

readline-stuff : (l : Bytes) → IsSendable l → ArrivesWhole l
unfolding IsSendable ArrivesWhole
readline-stuff l (h, (fits, (text, (e, one)))) rest s ok flows =
    let (u, (ends, only)) = stuff-ends l text e one in
    let size : length (stuff l) ≡ length u + 1 = ap length ends ∙ length-append u (b'\n' ∷ []) in
    let here : Lines (record { text = u ++ b'\n' ∷ []; count = length u + 1 }) rest
        (readline 1024 s) =
      readline-Lines 1024 u rest s only (omega (arith, length-stuff l)) ok
        (flows ∙ (ap (λ x. x ++ rest) ends ∙ append_assoc u (b'\n' ∷ []) rest)) in
    subst (λ x. Lines x rest (readline 1024 s)) (rw (size, ends) refl) here

ArrivesWhole-All : (ls : List Bytes) → All IsSendable ls → All ArrivesWhole ls
ArrivesWhole-All [] h = tt
ArrivesWhole-All (l ∷ ls) h = (readline-stuff l h.0, ArrivesWhole-All ls h.1)

before_end-sent :
    (ls : List Bytes) (more : List Line)
    → All IsSendable ls
    → concat (map received (before_end (sent ls more))) ≡ concat ls
unfolding before_end is_end strncasecmp_eq codes concat
before_end-sent [] more h = ground arith
before_end-sent (l ∷ ls) more h =
    rw (is_end-stuff l, received-stuff l h.0, before_end-sent ls more h.1) refl

after_end-sent : (ls : List Bytes) (more : List Line) → after_end (sent ls more) ≡ more
unfolding after_end is_end strncasecmp_eq codes
after_end-sent [] more = ground arith
after_end-sent (l ∷ ls) more = rw (is_end-stuff l) (after_end-sent ls more)

-- A message of lines that each have no zero byte, end in their only newline and have at most 1022
-- bytes, sent the way RFC 5321 asks of a client, each line that begins with a dot with another dot
-- in front and a dot alone behind the last one, is in the spool file byte for byte, and no line
-- behind the dot alone is taken. Each of its lines is what one call of `smf_internal_readline`
-- returns, however the calls of `read` cut the input.
pub receive-stuff :
    (ls : List Bytes) (more : List Line)
    → All IsSendable ls
    → let r = receive (sent ls more) nothing_received in
      (r.0.spool ≡ concat ls) × ((r.1 ≡ more) × All ArrivesWhole ls)
receive-stuff ls more ok =
    let h = receive_lem (sent ls more) in
    (h.0 ∙ before_end-sent ls more ok, (h.1.1 ∙ after_end-sent ls more, ArrivesWhole-All ls ok))
