-- ===== src/Settings/Ends.antt =====
-- The loop of `smf_settings_parse_config` ends: each fgets takes a byte, since `last` leaves line_room for it.
use spmfilter.Base.{
  ℕ, zero, suc, ◌+◌, ◌-◌, ◌≤◌, ◌<◌, ◌≡◌, refl, sym, ◌∙◌, ◌≢◌, inl, inr, Option, none, some, [], ◌∷◌,
  ◌++◌, arith, ◌==◌, Bool-cases, Option-cases, length, get_or, length-append, length-take, Bytes,
}
use spmfilter.Settings.Parse.{
  Parser, Outcome, undefined, running, fgets, turn, line_room, parse_lines, handle_line, restart,
}

pub length-fgets :
    (n : ℕ) (s : Bytes)
    → (length (fgets n s).0 + length (fgets n s).1 ≡ length s) × (length (fgets n s).0 ≤ n)
unfolding fgets
length-fgets zero s = (omega arith, omega arith)
length-fgets (suc n) [] = (refl, omega arith)
length-fgets (suc n) (c ∷ cs) = ground (arith, length-fgets n cs)

pub fgets_takes : (n c : ℕ) (cs : Bytes) → 0 < n → 0 < length (fgets n (c ∷ cs)).0
unfolding fgets
fgets_takes zero c cs h = absurd (omega arith)
fgets_takes (suc n) c cs h = ground arith

abbrev pub kept_of : Option Parser → ℕ
kept_of none = 0
kept_of (some p) = length p.kept

kept_of-restart : (o : Option Parser) → kept_of (restart o) ≡ 0
kept_of-restart none = refl
kept_of-restart (some p) = refl

pub kept_of-turn :
    (p : Parser) (line : Bytes)
    → length p.kept ≤ 198
    → length line ≤ 199
    → kept_of (turn p line) ≤ 198
unfolding turn
kept_of-turn p line hp hl = elim (Bool-cases (length line - 1 == 0)) [
  | inl y ↦ rw y hp
  | inr n ↦ elim (Bool-cases (get_or line (length line - 1) 0 == b'\\')) [
    | inl y ↦ rw (n, y) omega (arith, length-take (length line - 1) line)
    | inr z ↦ rw (n, z) omega (arith, kept_of-restart (handle_line p line))
  ]
]

-- The loop's step, for a file with a byte left.
unfoldable pub next_lines : ℕ → Option Parser → Bytes → Outcome
next_lines f none rest = undefined
next_lines f (some q) rest = parse_lines f q rest

pub parse_lines-suc :
    (f : ℕ) (p : Parser) (c : ℕ) (cs : Bytes)
    → parse_lines (suc f) p (c ∷ cs)
      ≡ next_lines f
          (turn p (p.kept ++ (fgets (line_room p) (c ∷ cs)).0))
          (fgets (line_room p) (c ∷ cs)).1
unfolding parse_lines next_lines
parse_lines-suc f p c cs =
    elim (Option-cases (turn p (p.kept ++ (fgets (line_room p) (c ∷ cs)).0))) [
      | inl n ↦ rw (n, parse_lines) refl
      | inr (q, e) ↦ rw (e, parse_lines) refl
    ]

next_lines-running :
    (f : ℕ) (o : Option Parser) (rest : Bytes)
    → length rest < f
    → kept_of o ≤ 198
    → ((q : Parser) (t : Bytes) → length t < f → length q.kept ≤ 198 → parse_lines f q t ≢ running)
    → next_lines f o rest ≢ running
unfolding next_lines
next_lines-running f none rest h k ih e = absurd (cc)
next_lines-running f (some q) rest h k ih e = ih q rest h k e

-- With fuel for every byte of the file the loop does not run out of it: it comes to the end of the file,
-- or C says nothing of what the program does.
pub parse_lines-running :
    (f : ℕ) (p : Parser) (s : Bytes)
    → length s < f
    → length p.kept ≤ 198
    → parse_lines f p s ≢ running
unfolding parse_lines
parse_lines-running zero p s h k e = absurd (omega arith)
parse_lines-running (suc f) p [] h k e = absurd (cc)
parse_lines-running (suc f) p (c ∷ cs) h k e =
    let (chunk, rest) = fgets (line_room p) (c ∷ cs) in
    let (whole, short) = length-fgets (line_room p) (c ∷ cs) in
    let takes = fgets_takes (line_room p) c cs (omega arith) in
    next_lines-running f (turn p (p.kept ++ chunk)) rest (omega arith)
      (kept_of-turn p (p.kept ++ chunk) k (omega (arith, length-append p.kept chunk)))
      (parse_lines-running f) (sym (parse_lines-suc f p c cs) ∙ e)
