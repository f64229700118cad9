-- ===== src/Core/Strip.antt =====
-- `smf_core_strstrip` and `smf_core_strlwc` of src/smf_core.c. The buffer is the list of its bytes
-- before the terminator, and a read at the end of the buffer gives the terminator 0.
pub mod Append
use spmfilter.Base.{
  take-length, get_or-drop, get_or-take, drop-drop, take-append-drop, sym, length-take, length-drop,
  ◌∙◌, get_or-beyond, append-nil, ◌+◌, get_or-drop, get_or-take, drop-drop, take-nil, drop_beyond,
  get_or-drop, get_or-take, drop-drop, ◌<◌, sym, ◌∙◌, ◌+◌, take-append-drop, IsText, ℕ, zero, suc,
  ◌+◌, ◌-◌, ◌≤◌, ◌<◌, true, false, [], ◌∷◌, ◌++◌, map, ◌≡◌, refl, sym, ◌∙◌, inl, inr, arith, ◌==◌,
  if◌then◌else◌, Bool-cases, length, get_or, take, drop, All, Bytes, IsText, is_space, to_lower,
  append-nil, take-append-drop, All-append, ◌↔◌,
}

-- `for (start = 0; s[start] && isspace(s[start]); ++start) {}`
strip_start : Bytes → ℕ
strip_start [] = 0
strip_start (c ∷ cs) = if is_space c then suc (strip_start cs) else 0

-- `while (end > 0 && isspace(s[end-1])) --end;`
strip_end : Bytes → ℕ → ℕ
strip_end s zero = 0
strip_end s (suc e) =
    let shorter = strip_end s e in if is_space (get_or s e 0) then shorter else suc e

unfoldable pub strstrip : Bytes → Bytes
unfolding strip_start strip_end is_space
strstrip s =
    let start = strip_start s in
    let end = if get_or s start 0 == 0 then length s else strip_end s (length s) in
    take (end - start) (drop start s)

unfoldable pub strlwc : Bytes → Bytes
unfolding to_lower
strlwc s = map to_lower s

-- `t` is `s` without the white space at its two ends.
pub record Trims (s t : Bytes) : Type 0 where
  pub before : Bytes
  pub after : Bytes
  pub before_spaces : All (λ c. is_space c ≡ true) before
  pub after_spaces : All (λ c. is_space c ≡ true) after
  pub splits : s ≡ before ++ (t ++ after)
  pub first_tight : is_space (get_or t 0 0) ≡ false
  pub last_tight : is_space (get_or t (length t - 1) 0) ≡ false

strip_start-le : (s : Bytes) → strip_start s ≤ length s
unfolding strip_start
strip_start-le [] = omega arith
strip_start-le (c ∷ cs) = ground (arith, strip_start-le cs)

take_spaces : (s : Bytes) → All (λ c. is_space c ≡ true) (take (strip_start s) s)
unfolding strip_start
take_spaces [] = tt
take_spaces (c ∷ cs) = elim (Bool-cases (is_space c)) [
  | inl y ↦ rw y (y, take_spaces cs)
  | inr n ↦ rw n tt
]

start_tight : (s : Bytes) → is_space (get_or s (strip_start s) 0) ≡ false
unfolding strip_start
start_tight [] = unfold is_space in refl
start_tight (c ∷ cs) = elim (Bool-cases (is_space c)) [
  | inl y ↦ rw (y, strip_start) (start_tight cs)
  | inr n ↦ rw (n, strip_start) n
]

end-le : (s : Bytes) (e : ℕ) → strip_end s e ≤ e
unfolding strip_end
end-le s zero = omega arith
end-le s (suc e) = ground (arith, end-le s e)

-- What `strip_end` passes over is white space.
end_spaces : (s : Bytes) (e i : ℕ) → strip_end s e ≤ i → i < e → is_space (get_or s i 0) ≡ true
unfolding strip_end
end_spaces s zero i h lt = absurd (omega arith)
end_spaces s (suc e) i h lt = ground (arith, end_spaces s e i)

-- It stops behind a byte that is none, or at 0.
end_tight :
    (s : Bytes) (e : ℕ) → 0 < strip_end s e → is_space (get_or s (strip_end s e - 1) 0) ≡ false
unfolding strip_end
end_tight s zero h = absurd (omega arith)
end_tight s (suc e) h = ground (arith, end_tight s e)

-- A byte that is no space stays in front of the end.
end_keeps : (s : Bytes) (e i : ℕ) → i < e → is_space (get_or s i 0) ≡ false → i < strip_end s e
end_keeps s e i lt h = ground (arith, end_spaces s e i)

All-of_positions :
    (xs : Bytes)
    → ((i : ℕ) → i < length xs → is_space (get_or xs i 0) ≡ true)
    → All (λ c. is_space c ≡ true) xs
All-of_positions [] h = tt
All-of_positions (x ∷ xs) h =
    (h 0 (omega arith), All-of_positions xs (λ i lt. h (suc i) (omega arith)))

text_byte : (s : Bytes) (i : ℕ) → IsText s → i < length s → 0 < get_or s i 0
text_byte [] i h lt = absurd (omega arith)
text_byte (c ∷ s) zero h lt = h.0
text_byte (c ∷ s) (suc i) h lt = text_byte s i h.1 (omega arith)

strip_blank :
    (s : Bytes)
    → IsText s
    → (get_or s (strip_start s) 0 == 0) ≡ true
    → (strip_start s ≡ length s) × (strstrip s ≡ [])
unfolding strstrip
strip_blank s h z =
    let e : strip_start s ≡ length s =
      ground (arith, strip_start-le s, text_byte s (strip_start s) h) in
    (e, rw (drop_beyond (strip_start s) s (omega (arith, e)), take-nil))

strip_body :
    (s : Bytes)
    → (get_or s (strip_start s) 0 == 0) ≡ false
    → strstrip s ≡ take (strip_end s (length s) - strip_start s) (drop (strip_start s) s)
unfolding strstrip
strip_body s z = rw z

module _ (s : Bytes) (body : get_or s (strip_start s) 0 == 0 ≡ false) where
  -- The bytes between the two scans, and where they stand.
  start-lt-end : strip_start s < strip_end s (length s)
  start-lt-end =
      end_keeps s (length s) (strip_start s) (ground (arith, get_or-beyond 0 (strip_start s) s))
        (start_tight s)

  length-body :
      length (take (strip_end s (length s) - strip_start s) (drop (strip_start s) s))
      ≡ strip_end s (length s) - strip_start s
  length-body = omega (
    arith,
    start-lt-end,
    end-le s (length s),
    length-take (strip_end s (length s) - strip_start s) (drop (strip_start s) s),
    length-drop (strip_start s) s,
  )

  body_byte :
      (i : ℕ)
      → strip_start s + i < strip_end s (length s)
      → get_or (take (strip_end s (length s) - strip_start s) (drop (strip_start s) s)) i 0
        ≡ get_or s (strip_start s + i) 0
  body_byte i h =
      get_or-take 0 (strip_end s (length s) - strip_start s) i (drop (strip_start s) s)
        (omega arith)
      ∙ get_or-drop 0 (strip_start s) i s

  body-Trims : Trims s (take (strip_end s (length s) - strip_start s) (drop (strip_start s) s))
  body-Trims = record {
    before = take (strip_start s) s;
    after = drop (strip_end s (length s) - strip_start s) (drop (strip_start s) s);
    before_spaces = take_spaces s;
    after_spaces = rw drop-drop (
        All-of_positions _ λ i lt. rw get_or-drop (
          end_spaces s (length s) (strip_start s + (strip_end s (length s) - strip_start s) + i)
            (omega (arith, start-lt-end))
            (omega (
              arith,
              start-lt-end,
              length-drop (strip_start s + (strip_end s (length s) - strip_start s)) s,
            ))));
    splits = rw (take-append-drop, take-append-drop);
    first_tight =
        rw (body_byte 0 (omega (arith, start-lt-end)))
          (let e : strip_start s + 0 ≡ strip_start s = omega arith in rw e (start_tight s));
    last_tight = rw length-body (
        rw (body_byte (strip_end s (length s) - strip_start s - 1) (omega (arith, start-lt-end))) (
          let e : strip_start s + (strip_end s (length s) - strip_start s - 1)
              ≡ strip_end s (length s) - 1 =
            omega (arith, start-lt-end) in
          rw e (end_tight s (length s) (omega (arith, start-lt-end)))));
  }

-- `smf_core_strstrip` removes the white space at both ends of a text and nothing else.
pub strstrip-Trims : (s : Bytes) → IsText s → Trims s (strstrip s)
strstrip-Trims s h = elim (Bool-cases (get_or s (strip_start s) 0 == 0)) [
  | inl blank ↦
      let (e, v) = strip_blank s h blank in
      rw v (record {
        before = s;
        after = [];
        before_spaces = rw (e, take-length) at (take_spaces s);
        after_spaces = tt;
        splits = sym (append-nil s);
        first_tight = unfold is_space in refl;
        last_tight = unfold is_space in refl;
      })
  | inr body ↦ rw (strip_body s body) (body-Trims s body)
]

strip_start-tight : (t : Bytes) → is_space (get_or t 0 0) ≡ false → strip_start t ≡ 0
unfolding strip_start
strip_start-tight [] h = refl
strip_start-tight (c ∷ cs) h = rw h

strip_end-tight : (t : Bytes) (e : ℕ) → is_space (get_or t (e - 1) 0) ≡ false → strip_end t e ≡ e
unfolding strip_end
strip_end-tight t zero h = refl
strip_end-tight t (suc e) h = let k : suc e - 1 ≡ e = omega arith in rw (rw k at h)

strstrip_tight :
    (t : Bytes)
    → is_space (get_or t 0 0) ≡ false
    → is_space (get_or t (length t - 1) 0) ≡ false
    → strstrip t ≡ t
unfolding strstrip
strstrip_tight t f l =
    ground (arith, strip_start-tight t f, strip_end-tight t (length t) l, take-length t)

-- Stripping a second time changes nothing.
pub strstrip_idem : (s : Bytes) → IsText s → strstrip (strstrip s) ≡ strstrip s
strstrip_idem s h =
    let t = strstrip-Trims s h in strstrip_tight (strstrip s) t.first_tight t.last_tight

spaces_blank : (s : Bytes) → All (λ c. is_space c ≡ true) s → strip_start s ≡ length s
unfolding strip_start
spaces_blank [] a = refl
spaces_blank (c ∷ cs) a = rw (a.0, spaces_blank cs a.1) refl

-- Nothing is left of a text exactly if it is white space.
pub strstrip_spaces : (s : Bytes) → IsText s → (strstrip s ≡ []) ↔ All (λ c. is_space c ≡ true) s
strstrip_spaces s h =
    let t = strstrip-Trims s h in
    (
      λ e.
          rw (t.splits, e)
            (All-append (λ c. is_space c ≡ true) t.before t.after t.before_spaces t.after_spaces),
      λ a.
          (strip_blank s h (ground (arith, get_or-beyond 0 (strip_start s) s, spaces_blank s a))).1,
    )
