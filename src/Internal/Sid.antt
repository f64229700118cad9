-- ===== src/Internal/Sid.antt =====
-- `smf_internal_generate_sid` of src/smf_internal.c: the id of a session. `random` gives the numbers that
-- its calls return.
use spmfilter.Base.{
  Bool, ◌&&◌, ◌||◌, leb, ℕ, zero, suc, ◌+◌, ◌%◌, ◌<◌, ◌≡◌, refl, true, [], ◌∷◌, arith, All, length,
  get_or, Bytes, codes,
}

abbrev pub chars : Bytes
unfolding codes
chars = codes "0123456789ABCDEFGHIJKLMNOPQRSTUVWXYZ"

-- `for(i=0; i < 12; i++)`, for the turns that are left.
unfoldable pub sid_loop : ℕ → (ℕ → ℕ) → Bytes
sid_loop zero random = []
sid_loop (suc n) random = get_or chars (random 0 % 36) 0 ∷ sid_loop n (λ i. random (i + 1))

unfoldable pub generate_sid : (ℕ → ℕ) → Bytes
unfolding sid_loop
generate_sid random = sid_loop 12 random

-- A digit or a capital letter.
abbrev pub is_sign : ℕ → Bool
is_sign c = (leb b'0' c && leb c b'9') || (leb b'A' c && leb c b'Z')

all_signs : Bytes → Bool
all_signs [] = true
all_signs (c ∷ cs) = is_sign c && all_signs cs

chars-all_signs : all_signs chars ≡ true
unfolding all_signs codes
chars-all_signs = refl

sign_at : (s : Bytes) (k : ℕ) → all_signs s ≡ true → k < length s → is_sign (get_or s k 0) ≡ true
unfolding all_signs
sign_at [] k h lt = absurd (omega arith)
sign_at (c ∷ cs) zero h lt = ground arith
sign_at (c ∷ cs) (suc k) h lt = sign_at cs k (ground arith) (omega arith)

length-chars : length chars ≡ 36
unfolding codes
length-chars = refl

sid_loop-signs :
    (n : ℕ) (random : ℕ → ℕ)
    → (length (sid_loop n random) ≡ n) × All (λ c. is_sign c ≡ true) (sid_loop n random)
unfolding sid_loop
sid_loop-signs zero random = (refl, tt)
sid_loop-signs (suc n) random =
    let (e, all) = sid_loop-signs n (λ i. random (i + 1)) in
    (
      omega (arith, e),
      (sign_at chars (random 0 % 36) chars-all_signs (omega (arith, length-chars)), all),
    )

-- Whatever the random numbers are, the id of a session is 12 digits and capital letters, so that it holds
-- no / or . that would lead the path of its spool file out of the queue directory.
pub generate_sid-signs :
    (random : ℕ → ℕ)
    → (length (generate_sid random) ≡ 12) × All (λ c. is_sign c ≡ true) (generate_sid random)
unfolding generate_sid
generate_sid-signs random = sid_loop-signs 12 random
