-- ===== src/Base/Text.antt =====
-- C strings as lists of bytes without their terminator, and what the source uses of <string.h>,
-- <strings.h> and <ctype.h> in the C locale.
use Prim.Native.Nat.{ℕ, zero, suc, ◌+◌, ◌<◌}
use Prim.Native.Char.{code}
use Prim.Native.String.{String}
use mathlib.Core.Path.{◌≡◌, refl}
use mathlib.Core.Logic.{◌↔◌}
use mathlib.Core.Bool.{Bool, true, false, ◌&&◌, ◌||◌}
use mathlib.Core.List.{List, [], ◌∷◌}
use mathlib.Core.Option.{Option, none, some}
use native.Mathlib.Omega.{arith}
use spmfilter.Base.Tests.{leb, ◌==◌, if◌then◌else◌}
use spmfilter.Base.Lists.{All, length}

abbrev pub Bytes : Type 0
Bytes = List ℕ

-- A C string holds no zero byte.
abbrev pub IsText : Bytes → Type 0
IsText = All (λ c. 0 < c)

-- What the string functions read of a buffer: the bytes in front of the first zero byte.
unfoldable pub c_text : Bytes → Bytes
c_text [] = []
c_text (c ∷ cs) = let rest = c ∷ c_text cs in if c == 0 then [] else rest

pub c_text_whole : (s : Bytes) → IsText s → c_text s ≡ s
unfolding c_text
c_text_whole [] h = refl
c_text_whole (c ∷ cs) h =
    let nonzero : (c == 0) ≡ false = ground arith in rw (nonzero, c_text_whole cs h.1) refl

-- The bytes of a literal.
unfoldable pub codes : String → Bytes
codes String.[] = []
codes (String.◌∷◌ c s) = code c ∷ codes s

-- strcmp(a, b) == 0
unfoldable pub equal : Bytes → Bytes → Bool
equal [] [] = true
equal (x ∷ xs) (y ∷ ys) = x == y && equal xs ys
equal _ _ = false

pub equal_iff : (s t : Bytes) → (equal s t ≡ true) ↔ (s ≡ t)
unfolding equal
equal_iff [] [] = ground arith
equal_iff [] (c ∷ t) = ground arith
equal_iff (c ∷ s) [] = ground arith
equal_iff (c ∷ s) (d ∷ t) = ground (arith, equal_iff s t)

pub equal_refl : (a : Bytes) → equal a a ≡ true
equal_refl a = (equal_iff a a).1 refl

pub equal_comm : (a b : Bytes) → equal a b ≡ equal b a
equal_comm a b = ground (arith, equal_iff a b, equal_iff b a)

unfoldable pub is_space : ℕ → Bool
is_space c = c == 32 || (leb 9 c && leb c 13)

unfoldable pub to_lower : ℕ → ℕ
to_lower c = if leb b'A' c && leb c b'Z' then c + 32 else c

-- strncasecmp(a, b, n) == 0
unfoldable pub strncasecmp_eq : Bytes → Bytes → ℕ → Bool
unfolding to_lower
strncasecmp_eq a b zero = true
strncasecmp_eq [] [] (suc n) = true
strncasecmp_eq (x ∷ xs) (y ∷ ys) (suc n) = to_lower x == to_lower y && strncasecmp_eq xs ys n
strncasecmp_eq _ _ (suc n) = false

-- strncmp(a, b, n) == 0
unfoldable pub strncmp_eq : Bytes → Bytes → ℕ → Bool
strncmp_eq a b zero = true
strncmp_eq [] [] (suc n) = true
strncmp_eq (x ∷ xs) (y ∷ ys) (suc n) = x == y && strncmp_eq xs ys n
strncmp_eq _ _ (suc n) = false

-- strchr(s, c): what follows the first `c`, that byte included.
unfoldable pub strchr : Bytes → ℕ → Option Bytes
strchr [] c = none
strchr (x ∷ xs) c = if x == c then some (x ∷ xs) else strchr xs c

-- `s` begins with `p`.
unfoldable pub starts_with : Bytes → Bytes → Bool
starts_with p [] = equal p []
starts_with [] s = true
starts_with (x ∷ p) (y ∷ s) = x == y && starts_with p s

-- strstr(s, p) != NULL
unfoldable pub strstr_found : Bytes → Bytes → Bool
unfolding starts_with equal
strstr_found [] p = starts_with p []
strstr_found (x ∷ s) p = starts_with p (x ∷ s) || strstr_found s p

unfoldable pub contains : ℕ → Bytes → Bool
contains c [] = false
contains c (x ∷ xs) = x == c || contains c xs

-- strcasestr(s, p)
unfoldable pub strcasestr : Bytes → Bytes → Option Bytes
unfolding strncasecmp_eq
strcasestr [] p = if strncasecmp_eq [] p (length p) then some [] else none
strcasestr (x ∷ s) p =
    let later = strcasestr s p in
    if strncasecmp_eq (x ∷ s) p (length p) then some (x ∷ s) else later

-- `printf` of a string by `%s`, where glibc prints a NULL.
unfoldable pub printf_s : Option Bytes → Bytes
unfolding codes
printf_s none = codes "(null)"
printf_s (some s) = s
