-- ===== src/Internal/Address.antt =====
-- `smf_internal_strip_email_addr` of src/smf_internal.c: the address between angle brackets.
use spmfilter.Base.{
  ℕ, ◌-◌, false, [], ◌∷◌, ◌++◌, Option, none, some, ◌==◌, ◌≡◌, refl, sym, ap, ◌∙◌, inl, inr, arith,
  if◌then◌else◌, Bool-cases, Bytes, contains, strchr, take, drop, length, length-append,
  take-append_length,
}

-- `if (*addr == '<') p1 = addr; else p1 = strchr(addr,'<');`
unfoldable pub open_bracket : Bytes → Option Bytes
open_bracket [] = strchr [] b'<'
open_bracket (c ∷ cs) = if c == b'<' then some (c ∷ cs) else strchr (c ∷ cs) b'<'

unfoldable pub strip_email_addr : Bytes → Bytes
strip_email_addr addr = elim (open_bracket addr) [
  | none ↦ addr
  | some p ↦
      let p1 = drop 1 p in
      elim (strchr p1 b'>') [ none ↦ addr | some p2 ↦ take (length p1 - length p2) p1 ]
]

-- The three forms of an address: no opening bracket, none that closes it, or a bracketed part.
pub data Form (addr : Bytes) : Type 0 where
  plain : contains b'<' addr ≡ false → Form addr
  unclosed :
      (pre r : Bytes)
      → addr ≡ pre ++ (b'<' ∷ r)
      → contains b'<' pre ≡ false
      → contains b'>' r ≡ false
      → Form addr
  bracketed :
      (pre inner post : Bytes)
      → addr ≡ pre ++ (b'<' ∷ (inner ++ (b'>' ∷ post)))
      → contains b'<' pre ≡ false
      → contains b'>' inner ≡ false
      → Form addr

-- The address that a form stands for.
abbrev pub address : {addr : Bytes} → Form addr → Bytes
address {addr} (plain _) = addr
address {addr} (unclosed _ _ _ _ _) = addr
address (bracketed _ inner _ _ _ _) = inner

strchr_split :
    (c : ℕ) (pre r : Bytes) → contains c pre ≡ false → strchr (pre ++ (c ∷ r)) c ≡ some (c ∷ r)
unfolding contains strchr
strchr_split c [] r h = ground arith
strchr_split c (x ∷ pre) r h = ground (arith, strchr_split c pre r)

strchr_absent : (c : ℕ) (s : Bytes) → contains c s ≡ false → strchr s c ≡ none
unfolding contains strchr
strchr_absent c [] h = refl
strchr_absent c (x ∷ s) h = ground (arith, strchr_absent c s)

open_bracket-strchr : (addr : Bytes) → open_bracket addr ≡ strchr addr b'<'
unfolding open_bracket strchr
open_bracket-strchr [] = refl
open_bracket-strchr (c ∷ cs) = ground arith

length_prefix : (a b : Bytes) → length (a ++ b) - length b ≡ length a
length_prefix a b = omega (arith, length-append a b)

module _ (pre : Bytes) (free : contains b'<' pre ≡ false) where
  opens : (r : Bytes) → open_bracket (pre ++ (b'<' ∷ r)) ≡ some (b'<' ∷ r)
  opens r = open_bracket-strchr (pre ++ (b'<' ∷ r)) ∙ strchr_split b'<' pre r free

  strip_unclosed :
      (r : Bytes)
      → contains b'>' r ≡ false
      → strip_email_addr (pre ++ (b'<' ∷ r)) ≡ pre ++ (b'<' ∷ r)
  unfolding strip_email_addr
  strip_unclosed r h = rw (opens r, strip_email_addr) (rw (strchr_absent b'>' r h))

  strip_bracketed :
      (inner post : Bytes)
      → contains b'>' inner ≡ false
      → strip_email_addr (pre ++ (b'<' ∷ (inner ++ (b'>' ∷ post)))) ≡ inner
  unfolding strip_email_addr
  strip_bracketed inner post h =
      rw (opens (inner ++ (b'>' ∷ post)), strip_email_addr)
        (rw (strchr_split b'>' inner post h) (
          ap (λ n. take n (inner ++ (b'>' ∷ post))) (length_prefix inner (b'>' ∷ post))
          ∙ take-append_length inner (b'>' ∷ post)))

-- Of an address in any form `smf_internal_strip_email_addr` returns what stands between the first
-- `<` and the first `>` behind it, and the whole text where there is no such part.
pub strip_email_addr-Form : (addr : Bytes) (f : Form addr) → strip_email_addr addr ≡ address f
unfolding strip_email_addr
strip_email_addr-Form addr (plain h) =
    rw (open_bracket-strchr addr ∙ strchr_absent b'<' addr h, strip_email_addr)
strip_email_addr-Form addr (unclosed pre r e h k) =
    ap strip_email_addr e ∙ strip_unclosed pre h r k ∙ sym e
strip_email_addr-Form addr (bracketed pre inner post e h k) =
    ap strip_email_addr e ∙ strip_bracketed pre h inner post k

-- A text around the first `c`.
data Around (c : ℕ) (s : Bytes) : Type 0 where
  absent : contains c s ≡ false → Around c s
  around : (pre post : Bytes) → s ≡ pre ++ (c ∷ post) → contains c pre ≡ false → Around c s

split_at : (c : ℕ) (s : Bytes) → Around c s
unfolding contains
split_at c [] = absent refl
split_at c (x ∷ s) = elim (Bool-cases (x == c)) [
  | inl y ↦ around [] s (ground arith) refl
  | inr n ↦ elim (split_at c s) [
    | absent h ↦ absent (ground arith)
    | around pre post e h ↦ around (x ∷ pre) post (ap (◌∷◌ x) e) (ground arith)
  ]
]

-- Every text has one of the forms.
pub form : (addr : Bytes) → Form addr
form addr = elim (split_at b'<' addr) [
  | absent h ↦ plain h
  | around pre r e h ↦ elim (split_at b'>' r) [
    | absent k ↦ unclosed pre r e h k
    | around inner post e' k ↦ bracketed pre inner post (e ∙ ap (λ t. pre ++ (b'<' ∷ t)) e') h k
  ]
]
