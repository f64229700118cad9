-- ===== src/Core/Strip/Append.antt =====
-- `smf_core_strstrip` of a text with one space behind it.
use spmfilter.Base.{
  ℕ, zero, suc, ◌-◌, ◌<◌, ◌≡◌, refl, true, false, [], ◌∷◌, ◌++◌, arith, ◌==◌, length, get_or,
  length-append, take-append_length, get_or-beyond, Bytes, is_space,
}
use spmfilter.Core.Strip.{
  strstrip, strip_start, strip_end, strip_start-tight, strip_end-tight, strip_body,
}

get_or-append : (xs ys : Bytes) (i : ℕ) → i < length xs → get_or (xs ++ ys) i 0 ≡ get_or xs i 0
get_or-append [] ys i h = absurd (omega arith)
get_or-append (x ∷ xs) ys zero h = refl
get_or-append (x ∷ xs) ys (suc i) h = get_or-append xs ys i (omega arith)

pub get_or-append_0 : (t : Bytes) (c : ℕ) → get_or (t ++ c ∷ []) (length t) 0 ≡ c
get_or-append_0 [] c = refl
get_or-append_0 (x ∷ t) c = get_or-append_0 t c

strip_end-append :
    (t : Bytes) (c : ℕ)
    → 0 < length t
    → is_space (get_or t (length t - 1) 0) ≡ false
    → is_space c ≡ true
    → strip_end (t ++ c ∷ []) (suc (length t)) ≡ length t
unfolding strip_end
strip_end-append t c p l h =
    let last : get_or (t ++ c ∷ []) (length t) 0 ≡ c = get_or-append_0 t c in
    rw (last, h)
      (strip_end-tight (t ++ c ∷ []) (length t)
        (rw (get_or-append t (c ∷ []) (length t - 1) (omega arith)) l))

-- A text with none at its ends keeps everything but that space.
pub strstrip-append :
    (t : Bytes) (c : ℕ)
    → get_or t 0 0 == 0 ≡ false
    → is_space (get_or t 0 0) ≡ false
    → is_space (get_or t (length t - 1) 0) ≡ false
    → is_space c ≡ true
    → strstrip (t ++ c ∷ []) ≡ t
strstrip-append t c n f l h =
    let s = t ++ c ∷ [] in
    let p : 0 < length t = ground (arith, get_or-beyond 0 0 t) in
    let first : get_or s 0 0 ≡ get_or t 0 0 = get_or-append t (c ∷ []) 0 p in
    let start : strip_start s ≡ 0 = strip_start-tight s (rw first f) in
    let size : length s ≡ suc (length t) = omega (arith, length-append t (c ∷ [])) in
    let end : strip_end s (length s) ≡ length t = rw size (strip_end-append t c p l h) in
    let none : length t - 0 ≡ length t = omega arith in
    rw (strip_body s (rw (start, first) n), end, start, none) (take-append_length t (c ∷ []))
