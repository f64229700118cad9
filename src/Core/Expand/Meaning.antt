-- ===== src/Core/Expand/Meaning.antt =====
-- What `smf_core_expand_string` of src/smf_core.c makes of a format, read from left to right.
use spmfilter.Base.{
  contains, length-drop, get_elem?-append_length, take-append_length, drop-append_add,
  length-append, get_or-append_add, ◌⊎◌, Option, Option-cases, ltb, ℕ, zero, suc, ◌+◌, ◌<◌, true,
  false, List, [], ◌∷◌, ◌++◌, ◌≡◌, refl, ◌∙◌, none, some, inl, inr, arith, ◌==◌, if◌then◌else◌,
  Bool-cases, ap, length, Bytes, get_elem?, get_or, take, drop, ℤ, minus_one, minus_two,
  append_assoc,
}
use spmfilter.Core.Split.{strsep, strsplit, pieces, rest_pieces, pieces-strsep, strsplit-pieces}
use spmfilter.Core.Expand.{
  Expanded, expanded, failed, overread, Choice, insert, refuse, choose, expand_loop, expand_string,
}

-- The text in front of the first `@`, and the one behind it, if there is one.
unfoldable pub user_of : Bytes → Bytes
user_of [] = []
user_of (c ∷ cs) = let rest = c ∷ user_of cs in if c == b'@' then [] else rest

unfoldable pub behind_at : Bytes → Option Bytes
behind_at [] = none
behind_at (c ∷ cs) = let rest = behind_at cs in if c == b'@' then some cs else rest

-- What an option stands for: `%d` for what is between the first `@` and the next one, `%u` for what
-- is in front of the first, `%s` for the whole.
unfoldable pub option_text : Bytes → ℕ → Choice
option_text addr o =
    if o == b'd'
    then elim (behind_at addr) [ none ↦ refuse minus_one | some r ↦ insert (user_of r) ]
    else if o == b'u'
    then insert (user_of addr)
    else if o == b's'
    then insert addr
    else refuse minus_two

-- The meaning of a format, read from left to right: an option stands for its text, and any other
-- byte for itself.
abbrev after : ℕ → Bytes → Expanded → Expanded
after n t (expanded k out) = expanded (n + k) (t ++ out)
after n t (failed e) = failed e
after n t overread = overread

unfoldable pub meaning : Bytes → Bytes → Expanded
meaning addr [] = expanded 0 []
meaning addr (c ∷ []) = if c == b'%' then failed minus_two else expanded 0 (c ∷ [])
meaning addr (c ∷ o ∷ r) =
    let plain = meaning addr (o ∷ r) in
    let option = meaning addr r in
    if c == b'%'
    then elim (option_text addr o) [
      | refuse e ↦ failed e
      | insert t ↦ if ltb (length t) 2 then overread else after 1 t option
    ]
    else after 0 (c ∷ []) plain

strsep-at : (s : Bytes) → strsep s (b'@' ∷ []) ≡ (user_of s, behind_at s)
unfolding strsep user_of behind_at contains
strsep-at [] = refl
strsep-at (c ∷ cs) = elim (Bool-cases (c == b'@')) [
  | inl y ↦ rw (strsep-at cs) ground arith
  | inr n ↦ rw (strsep-at cs) ground arith
]

first_piece : (s : Bytes) → pieces s (b'@' ∷ []) ≡ user_of s ∷ rest_pieces (behind_at s) (b'@' ∷ [])
first_piece s = pieces-strsep s (b'@' ∷ []) ∙ rw (strsep-at s) refl

-- The parts of an address without a domain, and of one with a domain.
parts_none : (s : Bytes) → behind_at s ≡ none → strsplit s (b'@' ∷ []) ≡ user_of s ∷ []
parts_none s e = strsplit-pieces s (b'@' ∷ []) ∙ (first_piece s ∙ rw e (unfold rest_pieces in refl))

parts_some :
    (s r : Bytes)
    → behind_at s ≡ some r
    → strsplit s (b'@' ∷ []) ≡ user_of s ∷ user_of r ∷ rest_pieces (behind_at r) (b'@' ∷ [])
parts_some s r e =
    strsplit-pieces s (b'@' ∷ [])
    ∙ (first_piece s ∙ rw e (unfold rest_pieces in ap (λ ps. user_of s ∷ ps) (first_piece r)))

-- The parts that `strsplit` gives are those of the address.
choose-option_text :
    (addr : Bytes) (o : ℕ) → choose addr (strsplit addr (b'@' ∷ [])) o ≡ option_text addr o
unfolding choose option_text
choose-option_text addr o = elim (Option-cases (behind_at addr)) [
  | inl e ↦ rw (parts_none addr e, e) ground arith
  | inr (r, e) ↦ rw (parts_some addr r e, e) ground arith
]

module _ (addr : Bytes) (parts : List Bytes) where
  -- One round of the loop, by what stands at the offset.
  round_end :
      (f : ℕ) (out : Bytes) (offs rep : ℕ)
      → get_elem? out offs ≡ none
      → expand_loop (suc f) addr parts out offs rep ≡ expanded rep out
  unfolding expand_loop
  round_end f out offs rep e = rw (e, expand_loop)

  round_plain :
      (f : ℕ) (out : Bytes) (offs rep : ℕ) (c : ℕ)
      → get_elem? out offs ≡ some c
      → (c == b'%') ≡ false
      → expand_loop (suc f) addr parts out offs rep ≡ expand_loop f addr parts out (offs + 1) rep
  unfolding expand_loop
  round_plain f out offs rep c e n = rw (e, expand_loop) (rw n)

  round_insert :
      (f : ℕ) (out : Bytes) (offs rep : ℕ) (c : ℕ) (t : Bytes)
      → get_elem? out offs ≡ some c
      → (c == b'%') ≡ true
      → choose addr parts (get_or out (offs + 1) 0) ≡ insert t
      → ltb (length t) 2 ≡ false
      → expand_loop (suc f) addr parts out offs rep
        ≡ expand_loop f addr parts
            (take offs out ++ (t ++ drop (offs + 2) out))
            (offs + length t)
            (rep + 1)
  unfolding expand_loop
  round_insert f out offs rep c t e y k l = rw (e, expand_loop) (rw y (rw k (rw l)))

  round_overread :
      (f : ℕ) (out : Bytes) (offs rep : ℕ) (c : ℕ) (t : Bytes)
      → get_elem? out offs ≡ some c
      → (c == b'%') ≡ true
      → choose addr parts (get_or out (offs + 1) 0) ≡ insert t
      → ltb (length t) 2 ≡ true
      → expand_loop (suc f) addr parts out offs rep ≡ overread
  unfolding expand_loop
  round_overread f out offs rep c t e y k l = rw (e, expand_loop) (rw y (rw k (rw l)))

  round_refuse :
      (f : ℕ) (out : Bytes) (offs rep : ℕ) (c : ℕ) (code : ℤ)
      → get_elem? out offs ≡ some c
      → (c == b'%') ≡ true
      → choose addr parts (get_or out (offs + 1) 0) ≡ refuse code
      → expand_loop (suc f) addr parts out offs rep ≡ failed code
  unfolding expand_loop
  round_refuse f out offs rep c code e y k = rw (e, expand_loop) (rw y (rw k))

module _ (addr : Bytes) where
  meaning_plain :
      (c : ℕ) (r : Bytes)
      → (c == b'%') ≡ false
      → meaning addr (c ∷ r) ≡ after 0 (c ∷ []) (meaning addr r)
  unfolding meaning
  meaning_plain c [] n = rw n
  meaning_plain c (o ∷ r) n = rw n

  meaning_insert :
      (c : ℕ) (r t : Bytes)
      → (c == b'%') ≡ true
      → option_text addr (get_or r 0 0) ≡ insert t
      → meaning addr (c ∷ r)
        ≡ (if ltb (length t) 2 then overread else after 1 t (meaning addr (drop 1 r)))
  unfolding meaning
  meaning_insert c [] t y k = unfold option_text in cc
  meaning_insert c (o ∷ r) t y k = rw y (rw k)

  meaning_refuse :
      (c : ℕ) (r : Bytes) (code : ℤ)
      → (c == b'%') ≡ true
      → option_text addr (get_or r 0 0) ≡ refuse code
      → meaning addr (c ∷ r) ≡ failed code
  unfolding meaning
  meaning_refuse c [] code y k = rw y (unfold option_text in ground arith)
  meaning_refuse c (o ∷ r) code y k = rw y (rw k)

after-after :
    (n k : ℕ) (s t : Bytes) (e : Expanded) → after n s (after k t e) ≡ after (n + k) (s ++ t) e
after-after n k s t (expanded m u) = ground (arith, append_assoc s t u)
after-after n k s t (failed e) = refl
after-after n k s t overread = refl

after_zero : (e : Expanded) → after 0 [] e ≡ e
after_zero (expanded k u) = ground arith
after_zero (failed e) = refl
after_zero overread = refl

Choice-cases : (c : Choice) → ((t : Bytes) × (c ≡ insert t)) ⊎ ((e : ℤ) × (c ≡ refuse e))
Choice-cases (insert t) = inl (t, refl)
Choice-cases (refuse e) = inr (e, refl)

module _ (addr : Bytes) (parts : List Bytes)
    (same : (o : ℕ) → choose addr parts o ≡ option_text addr o) where
  -- From the offset behind `pre`, the loop gives the meaning of the rest, behind `pre`.
  expand_loop-meaning :
      (f : ℕ) (pre r : Bytes) (n : ℕ)
      → length r < f
      → expand_loop f addr parts (pre ++ r) (length pre) n ≡ after n pre (meaning addr r)
  expand_loop-meaning zero pre r n h = absurd (omega arith)
  expand_loop-meaning (suc f) pre [] n h =
      round_end addr parts f (pre ++ []) (length pre) n (get_elem?-append_length pre [])
      ∙ unfold meaning in ground arith
  expand_loop-meaning (suc f) pre (c ∷ r) n h = elim (Bool-cases (c == b'%')) [
    | inr plain ↦
        let ih = expand_loop-meaning f (pre ++ c ∷ []) r n (omega arith) in
        let z : n + 0 ≡ n = omega arith in
        round_plain addr parts f (pre ++ (c ∷ r)) (length pre) n c at_offs plain
        ∙ (rw (append_assoc, length-append) at ih)
        ∙ rw (meaning_plain addr c r plain, after-after, z)
    | inl option ↦ elim (Choice-cases (option_text addr (get_or r 0 0))) [
      | inl (t, k) ↦ elim (Bool-cases (ltb (length t) 2)) [
        | inl short ↦
            round_overread addr parts f (pre ++ (c ∷ r)) (length pre) n c t at_offs option
              (rw opt (same _ ∙ k)) short
            ∙ rw (meaning_insert addr c r t option k, short)
        | inr long ↦
            let ih =
              expand_loop-meaning f (pre ++ t) (drop 1 r) (n + 1)
                (omega (arith, length-drop 1 r)) in
            round_insert addr parts f (pre ++ (c ∷ r)) (length pre) n c t at_offs option
              (rw opt (same _ ∙ k)) long
            ∙ (rw (take-append_length, drop-append_add))
            ∙ (rw (append_assoc, length-append) at ih)
            ∙ rw (meaning_insert addr c r t option k, long, after-after)
      ]
      | inr (e, k) ↦
          round_refuse addr parts f (pre ++ (c ∷ r)) (length pre) n c e at_offs option
            (rw opt (same _ ∙ k))
          ∙ rw (meaning_refuse addr c r e option k)
    ]
  ]
    where
      at_offs : get_elem? (pre ++ (c ∷ r)) (length pre) ≡ some c
      at_offs = get_elem?-append_length pre (c ∷ r)

      opt : get_or (pre ++ (c ∷ r)) (length pre + 1) 0 ≡ get_or r 0 0
      opt = get_or-append_add 0 pre (c ∷ r) 1

-- `smf_core_expand_string` returns the meaning of the format for the address: every option is
-- replaced once by its text, no inserted text is read again, and the number returned counts the
-- options; at the first option that is refused the call fails, with -1 for `%d` where the address
-- has no domain and -2 for any other option than the three. At the first text of less than two
-- bytes before that, the call reads behind its buffer.
pub expand_string-meaning : (format addr : Bytes) → expand_string format addr ≡ meaning addr format
unfolding expand_string
expand_string-meaning format addr =
    expand_loop-meaning addr (strsplit addr (b'@' ∷ [])) (choose-option_text addr)
      (length format + 1) [] format 0 (omega arith)
    ∙ after_zero (meaning addr format)

-- A format that holds no `%` comes back as it is, with no replacement made.
meaning_verbatim :
    (addr format : Bytes) → contains b'%' format ≡ false → meaning addr format ≡ expanded 0 format
unfolding contains
meaning_verbatim addr [] h = unfold meaning in refl
meaning_verbatim addr (c ∷ r) h =
    rw (meaning_plain addr c r (ground arith), meaning_verbatim addr r (ground arith))
