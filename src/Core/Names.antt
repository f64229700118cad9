-- ===== src/Core/Names.antt =====
-- The texts that src/smf_core.c makes of a digest and of the time, and `smf_core_strcat_printf`.
use spmfilter.Base.{
  ℕ, ◌+◌, ◌*◌, ◌/◌, ◌%◌, ◌<◌, ◌-◌, ◌≡◌, refl, ap, Option, none, some, [], ◌∷◌, ◌++◌, ltb,
  if◌then◌else◌, arith, length, Bytes, codes, show_ℕ, All,
}

-- What is printed for "%02x" of a byte.
abbrev pub hex_digit : ℕ → ℕ
hex_digit n = if ltb n 10 then b'0' + n else b'W' + n

unfoldable pub hex_text : Bytes → Bytes
hex_text [] = []
hex_text (b ∷ digest) = hex_digit (b / 16) ∷ hex_digit (b % 16) ∷ hex_text digest

-- For the digest that the MD5 code computes of the data.
unfoldable pub md5sum : (Bytes → Bytes) → Bytes → Bytes
md5sum md5 text = hex_text (md5 text)

unfoldable pub get_maildir_filename : ℕ → ℕ → Bytes → Bytes
unfolding codes
get_maildir_filename tv_sec tv_usec hostname =
    show_ℕ tv_sec ++ (codes ".V" ++ (show_ℕ tv_usec ++ (codes "." ++ hostname)))

-- For what vasprintf makes of the format; the text stays where that fails.
unfoldable pub strcat_printf : Bytes → Option Bytes → Bytes
strcat_printf s none = s
strcat_printf s (some tmp) = s ++ tmp

abbrev pub unhex_digit : ℕ → ℕ
unhex_digit c = if ltb c 58 then c - b'0' else c - b'W'

-- The bytes that a hexadecimal text stands for.
abbrev pub unhex : Bytes → Bytes
unhex [] = []
unhex (a ∷ []) = []
unhex (a ∷ b ∷ rest) = (16 * unhex_digit a + unhex_digit b) ∷ unhex rest

unhex_hex_digit : (n : ℕ) → n < 16 → unhex_digit (hex_digit n) ≡ n
unhex_hex_digit n h = ground arith

-- The text of a digest has its bytes back: two digests with the same text are the same.
pub unhex-hex_text : (digest : Bytes) → All (λ b. b < 256) digest → unhex (hex_text digest) ≡ digest
unfolding hex_text
unhex-hex_text [] h = refl
unhex-hex_text (b ∷ digest) h =
    let byte = h.0 in
    let high : b / 16 < 16 = omega arith in
    let low : b % 16 < 16 = omega arith in
    let whole : 16 * (b / 16) + b % 16 ≡ b = omega arith in
    rw (unhex_hex_digit (b / 16) high, unhex_hex_digit (b % 16) low, unhex-hex_text digest h.1)
      (ap (λ x. x ∷ digest) whole)

-- Two signs for a byte.
pub length-hex_text : (digest : Bytes) → length (hex_text digest) ≡ 2 * length digest
unfolding hex_text
length-hex_text [] = refl
length-hex_text (b ∷ digest) = ground (arith, length-hex_text digest)
