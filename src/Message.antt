-- ===== src/Message.antt =====
-- src/smf_message.c, where it does more than call libcmime: `smf_message_write_skip_header` copies
-- what stands behind the header of a file. Reads and writes succeed.
pub mod Objects
use spmfilter.Base.{
  ℕ, zero, suc, ◌≤◌, ◌≡◌, refl, sym, ap, ◌∙◌, Bool, true, false, ◌||◌, List, [], ◌∷◌, ◌++◌,
  append_assoc, arith, ◌==◌, if◌then◌else◌, length, All, length-append, Bytes, equal, contains,
}
use spmfilter.Internal.Linebreak.{lf, crlf}

-- `getline`: a line with its newline, if it has one, and what follows.
unfoldable pub getline : Bytes → Bytes × Bytes
getline [] = ([], [])
getline (c ∷ cs) = let (l, r) = getline cs in if c == b'\n' then (c ∷ [], cs) else (c ∷ l, r)

-- A blank line, where the header ends.
unfoldable pub is_blank_line : Bytes → Bool
unfolding equal
is_blank_line l = equal l lf || equal l crlf

-- The loop `while (!feof(src))` up to the blank line, with fuel: the body, which is then written.
unfoldable pub skip_loop : ℕ → Bytes → Bytes
skip_loop zero src = []
skip_loop (suc f) [] = []
skip_loop (suc f) (c ∷ cs) =
    let rest = (getline (c ∷ cs)).1 in
    let next = skip_loop f rest in if is_blank_line (getline (c ∷ cs)).0 then rest else next

-- What `smf_message_write_skip_header` writes to its destination.
unfoldable pub write_skip_header : Bytes → Bytes
write_skip_header src = skip_loop (length src) src

-- A line of a header: one newline, at its end, and not blank.
pub record IsLine (l : Bytes) : Type 0 where
  pub text : Bytes
  pub ends : l ≡ text ++ b'\n' ∷ []
  pub one_line : contains b'\n' text ≡ false
  pub not_blank : is_blank_line l ≡ false

-- Lines one behind the other.
abbrev pub lines : List Bytes → Bytes
lines [] = []
lines (l ∷ ls) = l ++ lines ls

getline_lem :
    (text rest : Bytes)
    → contains b'\n' text ≡ false
    → getline (text ++ (b'\n' ∷ rest)) ≡ (text ++ b'\n' ∷ [], rest)
unfolding getline contains
getline_lem [] rest h = refl
getline_lem (c ∷ t) rest h = rw (getline_lem t rest (ground arith)) (ground arith)

-- A round on a text whose first line ends in a newline.
skip_round :
    (f : ℕ) (text rest : Bytes)
    → contains b'\n' text ≡ false
    → skip_loop (suc f) (text ++ (b'\n' ∷ rest))
      ≡ (if is_blank_line (text ++ b'\n' ∷ []) then rest else skip_loop f rest)
unfolding skip_loop
skip_round f [] rest h = rw (getline_lem [] rest h)
skip_round f (c ∷ t) rest h = rw (getline_lem (c ∷ t) rest h)

-- The first line in front of the others.
line_first :
    (l : Bytes) (i : IsLine l) (ls : List Bytes) (r : Bytes)
    → lines (l ∷ ls) ++ r ≡ i.text ++ (b'\n' ∷ (lines ls ++ r))
line_first l i ls r =
    append_assoc l (lines ls) r
    ∙ ap (λ t. t ++ (lines ls ++ r)) i.ends
    ∙ append_assoc i.text (b'\n' ∷ []) (lines ls ++ r)

skip_loop_header :
    (f : ℕ) (ls : List Bytes) (blank body : Bytes)
    → All IsLine ls
    → contains b'\n' blank ≡ false
    → is_blank_line (blank ++ b'\n' ∷ []) ≡ true
    → length (lines ls ++ (blank ++ (b'\n' ∷ body))) ≤ f
    → skip_loop f (lines ls ++ (blank ++ (b'\n' ∷ body))) ≡ body
skip_loop_header zero ls blank body h n b le = absurd (
    omega (
      arith,
      length-append (lines ls) (blank ++ (b'\n' ∷ body)),
      length-append blank (b'\n' ∷ body),
    ))
skip_loop_header (suc f) [] blank body h n b le = skip_round f blank body n ∙ rw b
skip_loop_header (suc f) (l ∷ ls) blank body h n b le =
    let i = h.0 in
    let r = blank ++ (b'\n' ∷ body) in
    ap (skip_loop (suc f)) (line_first l i ls r)
    ∙ skip_round f i.text (lines ls ++ r) i.one_line
    ∙ rw (ap is_blank_line (sym i.ends) ∙ i.not_blank) (
        skip_loop_header f ls blank body h.1 n b (
          omega (
            arith,
            ap length (line_first l i ls r),
            length-append i.text (b'\n' ∷ (lines ls ++ r)),
          )))

-- Of a header of non-blank lines, a blank line and a body, `smf_message_write_skip_header` writes
-- the body.
pub write_skip_header_body :
    (ls : List Bytes) (blank body : Bytes)
    → All IsLine ls
    → contains b'\n' blank ≡ false
    → is_blank_line (blank ++ b'\n' ∷ []) ≡ true
    → write_skip_header (lines ls ++ (blank ++ (b'\n' ∷ body))) ≡ body
unfolding write_skip_header
write_skip_header_body ls blank body h n b =
    skip_loop_header (length (lines ls ++ (blank ++ (b'\n' ∷ body)))) ls blank body h n b
      (omega arith)
