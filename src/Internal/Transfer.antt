-- ===== src/Internal/Transfer.antt =====
-- `smf_internal_readn` and `smf_internal_writen` of src/smf_internal.c, for what read and write return.
use mathlib.Core.Path.{subst}
use mathlib.Core.Option.{some_inj}
use spmfilter.Base.{
  ℕ, zero, suc, ◌+◌, ◌-◌, ◌<◌, ◌≡◌, refl, sym, ap, ◌∙◌, ◌↔◌, ◌⊎◌, inl, inr, Option, none, some,
  List, [], ◌∷◌, ◌++◌, append_assoc, arith, length, take, drop, length-append, length-take,
  take-append-drop, Bytes, ℤ, pos, minus_one,
}

-- EINTR, another error, or a number of bytes; write never takes more than it is offered.
pub data Wrote : Type 0 where
  interrupted : Wrote
  broken : Wrote
  wrote : ℕ → Wrote

-- The loop with the bytes that are left, for the calls of write and what is sent before: the value that
-- is returned and what is sent. None while the loop waits for another call. `total` is `nbyte`.
unfoldable pub writen_loop : List Wrote → ℕ → Bytes → Bytes → Option (ℤ × Bytes)
writen_loop calls total [] sent = some (pos total, sent)
writen_loop [] total (b ∷ bs) sent = none
writen_loop (interrupted ∷ calls) total (b ∷ bs) sent = writen_loop calls total (b ∷ bs) sent
writen_loop (broken ∷ calls) total (b ∷ bs) sent = some (minus_one, sent)
writen_loop (wrote zero ∷ calls) total (b ∷ bs) sent = some (pos (total - 1), sent)
writen_loop (wrote (suc n) ∷ calls) total (b ∷ bs) sent =
    writen_loop calls total (drop (suc n) (b ∷ bs)) (sent ++ take (suc n) (b ∷ bs))

unfoldable pub writen : List Wrote → Bytes → Option (ℤ × Bytes)
unfolding writen_loop
writen calls buf = writen_loop calls (length buf) buf []

-- EINTR, another error, or bytes, of which an empty text is the end.
pub data Reads : Type 0 where
  disturbed : Reads
  unreadable : Reads
  reads : Bytes → Reads

-- The loop with room for `n` bytes, and what is read before it. `total` is `nbyte`.
unfoldable pub readn_loop : List Reads → ℕ → ℕ → Bytes → Option (ℤ × Bytes)
readn_loop calls total zero got = some (pos total, got)
readn_loop [] total (suc n) got = none
readn_loop (disturbed ∷ calls) total (suc n) got = readn_loop calls total (suc n) got
readn_loop (unreadable ∷ calls) total (suc n) got = some (minus_one, got)
readn_loop (reads [] ∷ calls) total (suc n) got = some (pos (total - suc n), got)
readn_loop (reads (b ∷ bs) ∷ calls) total (suc n) got =
    readn_loop calls total (n - length bs) (got ++ take (suc n) (b ∷ bs))

unfoldable pub readn : List Reads → ℕ → Option (ℤ × Bytes)
unfolding readn_loop
readn calls nbyte = readn_loop calls nbyte nbyte []

-- What is sent in the end: all that was left, or a part of it.
unfoldable pub Sends : ℕ → Bytes → Bytes → ℤ × Bytes → Type 0
Sends total left sent r =
    (rest : Bytes) × ((sent ++ left ≡ r.1 ++ rest) × ((r.0 ≡ pos total) ↔ (rest ≡ [])))

writen_loop-Sends :
    (calls : List Wrote) (total : ℕ) (left sent : Bytes) (r : ℤ × Bytes)
    → 0 < total
    → writen_loop calls total left sent ≡ some r
    → Sends total left sent r
unfolding writen_loop Sends
writen_loop-Sends calls total [] sent r p e =
    subst (Sends total [] sent) (some_inj.0 e) ([], (refl, (λ _. refl, λ _. refl)))
writen_loop-Sends [] total (b ∷ bs) sent r p e = absurd (cc)
writen_loop-Sends (interrupted ∷ calls) total (b ∷ bs) sent r p e =
    writen_loop-Sends calls total (b ∷ bs) sent r p e
writen_loop-Sends (broken ∷ calls) total (b ∷ bs) sent r p e =
    subst (Sends total (b ∷ bs) sent) (some_inj.0 e)
      (b ∷ bs, (refl, (λ h. absurd (cc), λ h. absurd (cc))))
writen_loop-Sends (wrote zero ∷ calls) total (b ∷ bs) sent r p e =
    subst (Sends total (b ∷ bs) sent) (some_inj.0 e)
      (b ∷ bs, (refl, (λ h. absurd (ground arith), λ h. absurd (cc))))
writen_loop-Sends (wrote (suc n) ∷ calls) total (b ∷ bs) sent r p e =
    let now = take (suc n) (b ∷ bs) in
    let later = drop (suc n) (b ∷ bs) in
    let (rest, (whole, iff)) = writen_loop-Sends calls total later (sent ++ now) r p e in
    let split : sent ++ (b ∷ bs) ≡ (sent ++ now) ++ later =
      ap (λ t. sent ++ t) (sym (take-append-drop (suc n) (b ∷ bs)))
      ∙ sym (append_assoc sent now later) in
    (rest, (split ∙ whole, iff))

-- When `smf_internal_writen` returns, for a buffer that is not empty, it has sent the buffer from its
-- start, with no byte twice and none left out, whatever the calls of write have returned, and it returns
-- the length of the buffer exactly if it has sent all of it.
pub writen-Sends :
    (calls : List Wrote) (buf : Bytes) (r : ℤ × Bytes)
    → 0 < length buf
    → writen calls buf ≡ some r
    → Sends (length buf) buf [] r
unfolding writen
writen-Sends calls buf r p e = writen_loop-Sends calls (length buf) buf [] r p e

abbrev Counts : ℤ × Bytes → Type 0
Counts r = (r.0 ≡ pos (length r.1)) ⊎ (r.0 ≡ minus_one)

-- The value that is returned is the number of bytes that are read, or -1.
pub length-readn_loop :
    (calls : List Reads) (total n : ℕ) (got : Bytes) (r : ℤ × Bytes)
    → length got + n ≡ total
    → readn_loop calls total n got ≡ some r
    → Counts r
unfolding readn_loop
length-readn_loop calls total zero got r p e =
    subst Counts (some_inj.0 e) (inl (ap pos (omega arith)))
length-readn_loop [] total (suc n) got r p e = absurd (cc)
length-readn_loop (disturbed ∷ calls) total (suc n) got r p e =
    length-readn_loop calls total (suc n) got r p e
length-readn_loop (unreadable ∷ calls) total (suc n) got r p e =
    subst Counts (some_inj.0 e) (inr refl)
length-readn_loop (reads [] ∷ calls) total (suc n) got r p e =
    subst Counts (some_inj.0 e) (inl (ap pos (omega arith)))
length-readn_loop (reads (b ∷ bs) ∷ calls) total (suc n) got r p e =
    length-readn_loop calls total (n - length bs) (got ++ take (suc n) (b ∷ bs)) r
      (omega (arith, length-append got (take (suc n) (b ∷ bs)), length-take n bs)) e
