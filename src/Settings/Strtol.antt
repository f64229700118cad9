-- ===== src/Settings/Strtol.antt =====
-- `_get_integer` of src/smf_settings.c: strtol with base 0, for a long of 64 bits, as an int of 32.
use Prim.Native.Nat.{min}
use spmfilter.Base.{
  ℕ, ◌+◌, ◌-◌, ◌*◌, ◌^◌, ◌&&◌, ◌||◌, [], ◌∷◌, ltb, leb, ◌==◌, if◌then◌else◌, get_or, drop, Bytes,
  is_space, ℤ, pos, negsuc, as_int,
}

-- What a digit stands for in the largest base; 36 is no digit.
unfoldable digit_value : ℕ → ℕ
digit_value c =
    if leb b'0' c && leb c b'9'
    then c - 48
    else if leb b'a' c && leb c b'z'
    then c - 87
    else if leb b'A' c && leb c b'Z'
    then c - 55
    else 36

unfoldable read_base : ℕ → ℕ → Bytes → ℕ
read_base base acc [] = acc
read_base base acc (c ∷ cs) =
    let more = read_base base (acc * base + digit_value c) cs in
    if ltb (digit_value c) base then more else acc

-- The prefix decides on the base: 16 for 0x in front of a digit, 8 for 0, and else 10.
unfoldable magnitude : Bytes → ℕ
unfolding read_base digit_value
magnitude (c ∷ (x ∷ (d ∷ cs))) =
    if c == b'0'
    then (if (x == b'x' || x == b'X') && ltb (digit_value d) 16
        then read_base 16 0 (d ∷ cs)
        else read_base 8 0 (c ∷ (x ∷ (d ∷ cs))))
    else read_base 10 0 (c ∷ (x ∷ (d ∷ cs)))
magnitude s = if get_or s 0 0 == b'0' then read_base 8 0 s else read_base 10 0 s

-- The white space that strtol and a blank of sscanf's format pass over.
unfoldable pub skip_spaces : Bytes → Bytes
skip_spaces [] = []
skip_spaces (c ∷ cs) = let later = skip_spaces cs in if is_space c then later else c ∷ cs

-- The long's two's complement, which the cast to int cuts off.
unfoldable strtol : Bytes → ℕ
unfolding magnitude
strtol s =
    if get_or s 0 0 == b'-'
    then 2 ^ 64 - min (magnitude (drop 1 s)) (2 ^ 63)
    else if get_or s 0 0 == b'+'
    then min (magnitude (drop 1 s)) (2 ^ 63 - 1)
    else min (magnitude s) (2 ^ 63 - 1)

unfoldable pub get_integer : Bytes → ℤ
unfolding strtol skip_spaces
get_integer val = as_int (strtol (skip_spaces val))

-- An int that is stored in an unsigned long.
unfoldable pub as_ulong : ℤ → ℕ
as_ulong (pos n) = n
as_ulong (negsuc n) = 2 ^ 64 - 1 - n
