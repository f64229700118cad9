-- ===== src/Internal/Chunks.antt =====
-- A line does not depend on how the calls of `read` cut the input.
use spmfilter.Base.{
  ℕ, zero, suc, ◌+◌, ◌-◌, ◌<◌, ◌≡◌, refl, ap, ◌∙◌, false, List, [], ◌∷◌, ◌++◌, append_assoc, arith,
  ◌==◌, length, All, Bytes, contains,
}
use mathlib.Core.Path.{subst}
use spmfilter.Internal.Readline.{
  Read, got, interrupted, broken, Source, Char, byte, no_more, fill, read_from, readcbuf, Line, Got,
  line, read_loop, readline,
}

-- What the calls of `read` bring.
unfoldable pub flow : List Read → Bytes
flow [] = []
flow (got b ∷ rs) = b ++ flow rs
flow (interrupted ∷ rs) = flow rs
flow (broken ∷ rs) = []

unfoldable pub stream : Source → Bytes
stream s = s.buffer ++ flow s.reads

-- A call that brings bytes, or is interrupted.
unfoldable pub IsSteady : Read → Type 0
IsSteady (got []) = ⊥
IsSteady (got (c ∷ cs)) = Unit
IsSteady interrupted = Unit
IsSteady broken = ⊥

-- One byte.
Reads : ℕ → Bytes → Char → Type 0
Reads c rest r = (s : Source) × ((r ≡ byte c s) × ((stream s ≡ rest) × All IsSteady s.reads))

fill-Reads :
    (rs : List Read) (c : ℕ) (rest : Bytes)
    → All IsSteady rs
    → flow rs ≡ c ∷ rest
    → Reads c rest (fill rs)
unfolding fill flow Reads IsSteady stream
fill-Reads [] c rest h e = absurd (cc)
fill-Reads (interrupted ∷ rs) c rest h e = fill-Reads rs c rest h.1 e
fill-Reads (broken ∷ rs) c rest h e = absurd h.0
fill-Reads (got [] ∷ rs) c rest h e = absurd h.0
fill-Reads (got (d ∷ ds) ∷ rs) c rest h e =
    let ec : d ≡ c = cc in
    let er : ds ++ flow rs ≡ rest = cc in
    (
      record { buffer = ds; reads = rs },
      (ap (λ x. byte x (record { buffer = ds; reads = rs })) ec, (er, h.1)),
    )

read_from-Reads :
    (b : Bytes) (rs : List Read) (c : ℕ) (rest : Bytes)
    → All IsSteady rs
    → b ++ flow rs ≡ c ∷ rest
    → Reads c rest (read_from b rs)
unfolding read_from Reads stream
read_from-Reads [] rs c rest h e = fill-Reads rs c rest h e
read_from-Reads (d ∷ ds) rs c rest h e =
    let ec : d ≡ c = cc in
    let er : ds ++ flow rs ≡ rest = cc in
    (
      record { buffer = ds; reads = rs },
      (ap (λ x. byte x (record { buffer = ds; reads = rs })) ec, (er, h)),
    )

-- A line is in the buffer of the caller, and the input goes on behind it.
unfoldable pub Lines : Line → Bytes → Got → Type 0
Lines l rest g = (s : Source) × ((g ≡ line l s) × ((stream s ≡ rest) × All IsSteady s.reads))

read_loop-Lines :
    (text : Bytes) (k n last : ℕ) (stored rest : Bytes) (s : Source)
    → contains b'\n' text ≡ false
    → length text < k
    → All IsSteady s.reads
    → stream s ≡ text ++ (b'\n' ∷ rest)
    → Lines
        (record { text = stored ++ (text ++ b'\n' ∷ []); count = n + length text })
        rest
        (read_loop k n last stored s)
unfolding read_loop contains Lines readcbuf Reads stream
read_loop-Lines text zero n last stored rest s h lt ok e = absurd (omega arith)
read_loop-Lines [] (suc k) n last stored rest s h lt ok e =
    let (s', (e', (r, ok'))) = read_from-Reads s.buffer s.reads b'\n' rest ok e in
    (
      s',
      (
        rw (e', read_loop)
            (ap (λ m. line (record { text = stored ++ b'\n' ∷ []; count = m }) s') (omega arith)),
        (r, ok'),
      ),
    )
read_loop-Lines (c ∷ text) (suc k) n last stored rest s h lt ok e =
    let (s', (e', (r, ok'))) = read_from-Reads s.buffer s.reads c (text ++ (b'\n' ∷ rest)) ok e in
    let inner : (c == b'\n') ≡ false = ground arith in
    let (s2, (e2, (r2, ok2))) =
      read_loop-Lines text k (n + 1) c (stored ++ c ∷ []) rest s' (ground arith) (omega arith) ok'
        r in
    (
      s2,
      (
        rw (e', read_loop, inner)
            (e2
              ∙ (ap (λ t. line (record { text = t; count = n + 1 + length text }) s2)
                    (append_assoc stored (c ∷ []) (text ++ b'\n' ∷ []))
                  ∙ ap
                      (λ m.
                        line (record { text = stored ++ (c ∷ (text ++ b'\n' ∷ [])); count = m }) s2)
                      (omega arith))),
        (r2, ok2),
      ),
    )

-- Where the input goes on with a line that fits into the caller's buffer, the call returns that line
-- with its length, and leaves the input behind it, however the calls of `read` cut the input into
-- pieces and whichever of them are interrupted.
pub readline-Lines :
    (nbyte : ℕ) (text rest : Bytes) (s : Source)
    → contains b'\n' text ≡ false
    → length text + 1 < nbyte
    → All IsSteady s.reads
    → stream s ≡ text ++ (b'\n' ∷ rest)
    → Lines (record { text = text ++ b'\n' ∷ []; count = length text + 1 }) rest (readline nbyte s)
unfolding readline
readline-Lines nbyte text rest s h lt ok e =
    let e1 : 1 + length text ≡ length text + 1 = omega arith in
    subst
      (λ m.
        Lines (record { text = text ++ b'\n' ∷ []; count = m }) rest
          (read_loop (nbyte - 1) 1 0 [] s))
      e1 (read_loop-Lines text (nbyte - 1) 1 0 [] rest s h (omega arith) ok e)

-- The end of the input.
Stops : Char → Type 0
Stops r = (s : Source) × (r ≡ no_more s)

fill-Stops : (rs : List Read) → All IsSteady rs → flow rs ≡ [] → Stops (fill rs)
unfolding fill flow Stops IsSteady
fill-Stops [] h e = (_, refl)
fill-Stops (interrupted ∷ rs) h e = fill-Stops rs h.1 e
fill-Stops (broken ∷ rs) h e = absurd h.0
fill-Stops (got [] ∷ rs) h e = absurd h.0
fill-Stops (got (d ∷ ds) ∷ rs) h e = absurd (cc)

read_from-Stops :
    (b : Bytes) (rs : List Read) → All IsSteady rs → b ++ flow rs ≡ [] → Stops (read_from b rs)
unfolding read_from
read_from-Stops [] rs h e = fill-Stops rs h e
read_from-Stops (d ∷ ds) rs h e = absurd (cc)

unfoldable pub last_byte : ℕ → Bytes → ℕ
last_byte d [] = d
last_byte d (c ∷ cs) = last_byte c cs

-- A line is in the buffer of the caller.
unfoldable pub Gives : Line → Got → Type 0
Gives l g = (s : Source) × (g ≡ line l s)

read_loop-Gives :
    (text : Bytes) (k n last : ℕ) (stored : Bytes) (s : Source)
    → contains b'\n' text ≡ false
    → length text < k
    → 1 < n + length text
    → All IsSteady s.reads
    → stream s ≡ text
    → Gives
        (record { text = stored ++ (text ++ last_byte last text ∷ []); count = n + length text })
        (read_loop k n last stored s)
unfolding read_loop contains Gives readcbuf Reads stream Stops last_byte
read_loop-Gives text zero n last stored s h lt big ok e = absurd (omega arith)
read_loop-Gives [] (suc k) n last stored s h lt big ok e =
    let (s', e') = read_from-Stops s.buffer s.reads ok e in
    let later : (n == 1) ≡ false = ground arith in
    (
      s',
      rw (e', read_loop, later)
          (ap (λ m. line (record { text = stored ++ last ∷ []; count = m }) s') (omega arith)),
    )
read_loop-Gives (c ∷ text) (suc k) n last stored s h lt big ok e =
    let (s', (e', (r, ok'))) = read_from-Reads s.buffer s.reads c text ok e in
    let inner : (c == b'\n') ≡ false = ground arith in
    let (s2, e2) =
      read_loop-Gives text k (n + 1) c (stored ++ c ∷ []) s' (ground arith) (omega arith)
        (omega arith) ok' r in
    (
      s2,
      rw (e', read_loop, inner)
          (e2
            ∙ (ap (λ t. line (record { text = t; count = n + 1 + length text }) s2)
                  (append_assoc stored (c ∷ []) (text ++ last_byte c text ∷ []))
                ∙ ap
                    (λ m.
                      line
                        (record {
                          text = stored ++ (c ∷ (text ++ last_byte c text ∷ []));
                          count = m;
                        })
                        s2)
                    (omega arith))),
    )

-- Where the input ends in a line, the call returns what there is of it with its last byte a second
-- time, and counts that byte too.
pub readline-Gives :
    (nbyte c : ℕ) (text : Bytes) (s : Source)
    → contains b'\n' (c ∷ text) ≡ false
    → length (c ∷ text) + 1 < nbyte
    → All IsSteady s.reads
    → stream s ≡ c ∷ text
    → Gives
        (record { text = (c ∷ text) ++ last_byte c text ∷ []; count = length (c ∷ text) + 1 })
        (readline nbyte s)
unfolding readline last_byte
readline-Gives nbyte c text s h lt ok e =
    let e1 : 1 + length (c ∷ text) ≡ length (c ∷ text) + 1 = omega arith in
    subst
      (λ m.
        Gives (record { text = (c ∷ text) ++ last_byte c text ∷ []; count = m })
          (read_loop (nbyte - 1) 1 0 [] s))
      e1 (read_loop-Gives (c ∷ text) (nbyte - 1) 1 0 [] s h (omega arith) (omega arith) ok e)
