-- ===== src/Core/Split.antt =====
-- `smf_core_strsplit` of src/smf_core.c. An array of strings is the list of its elements in front
-- of the closing NULL, so `nelems` is its length.
use spmfilter.Base.{
  sym, ℕ, zero, suc, ◌+◌, ◌≤◌, ◌<◌, false, List, [], ◌∷◌, ◌++◌, ◌≡◌, refl, ap, ◌∙◌, Option, none,
  some, inl, inr, arith, ◌==◌, if◌then◌else◌, Bool-cases, length, Bytes, contains, All,
}

-- `strsep(&cp, sep)` at a `cp` that is not NULL: the token, and the new `cp`.
unfoldable pub strsep : Bytes → Bytes → Bytes × Option Bytes
strsep [] sep = ([], none)
strsep (c ∷ cs) sep =
    let (t, cp) = strsep cs sep in if contains c sep then ([], some cs) else (c ∷ t, cp)

-- `while ((tmp = strsep(&cp, sep)) != NULL)`
split_loop : ℕ → Option Bytes → Bytes → List Bytes
split_loop zero cp sep = []
split_loop (suc f) none sep = []
split_loop (suc f) (some s) sep = let (t, cp) = strsep s sep in t ∷ split_loop f cp sep

unfoldable pub strsplit : Bytes → Bytes → List Bytes
unfolding split_loop strsep contains
strsplit s sep = split_loop (length s + 2) (some s) sep

-- The pieces of a text, read off byte by byte.
abbrev add_first : ℕ → List Bytes → List Bytes
add_first c [] = (c ∷ []) ∷ []
add_first c (p ∷ ps) = (c ∷ p) ∷ ps

unfoldable pub pieces : Bytes → Bytes → List Bytes
pieces [] sep = [] ∷ []
pieces (c ∷ cs) sep =
    let rest = pieces cs sep in if contains c sep then [] ∷ rest else add_first c rest

-- The loop's view of the pieces: the first token, and those of the text behind it.
unfoldable pub rest_pieces : Option Bytes → Bytes → List Bytes
rest_pieces none sep = []
rest_pieces (some s) sep = pieces s sep

pub pieces-strsep :
    (s sep : Bytes) → pieces s sep ≡ (strsep s sep).0 ∷ rest_pieces (strsep s sep).1 sep
unfolding pieces strsep rest_pieces
pieces-strsep [] sep = refl
pieces-strsep (c ∷ cs) sep = elim (Bool-cases (contains c sep)) [
  | inl y ↦ rw y
  | inr n ↦ rw (n, pieces-strsep cs sep)
]

abbrev left : Option Bytes → ℕ
left none = 0
left (some s) = suc (length s)

strsep-left : (s sep : Bytes) → left (strsep s sep).1 ≤ length s
unfolding strsep
strsep-left [] sep = omega arith
strsep-left (c ∷ cs) sep = ground (arith, strsep-left cs sep)

split_loop-pieces :
    (f : ℕ) (cp : Option Bytes) (sep : Bytes)
    → left cp < f
    → split_loop f cp sep ≡ rest_pieces cp sep
unfolding split_loop rest_pieces
split_loop-pieces zero cp sep h = absurd (omega arith)
split_loop-pieces (suc f) none sep h = refl
split_loop-pieces (suc f) (some s) sep h =
    ap (◌∷◌ (strsep s sep).0)
      (split_loop-pieces f (strsep s sep).1 sep (omega (arith, strsep-left s sep)))
    ∙ sym (pieces-strsep s sep)

pub strsplit-pieces : (s sep : Bytes) → strsplit s sep ≡ pieces s sep
unfolding strsplit rest_pieces
strsplit-pieces s sep = split_loop-pieces (length s + 2) (some s) sep (omega arith)

-- The pieces with the byte `c` between them.
unfoldable pub join : ℕ → List Bytes → Bytes
join c [] = []
join c (p ∷ []) = p
join c (p ∷ q ∷ ps) = p ++ (c ∷ join c (q ∷ ps))

unfoldable pub count_bytes : Bytes → Bytes → ℕ
count_bytes sep [] = 0
count_bytes sep (c ∷ cs) = (if contains c sep then 1 else 0) + count_bytes sep cs

-- A separator occurs nowhere in a piece.
abbrev pub FreeOf : Bytes → Bytes → Type 0
FreeOf sep = All (λ c. contains c sep ≡ false)

add_first-FreeOf :
    (c : ℕ) (sep : Bytes) (ps : List Bytes)
    → contains c sep ≡ false
    → All (FreeOf sep) ps
    → All (FreeOf sep) (add_first c ps)
add_first-FreeOf c sep [] n h = ((n, tt), tt)
add_first-FreeOf c sep (p ∷ ps) n h = ((n, h.0), h.1)

pieces-FreeOf : (s sep : Bytes) → All (FreeOf sep) (pieces s sep)
unfolding pieces
pieces-FreeOf [] sep = (tt, tt)
pieces-FreeOf (c ∷ cs) sep = elim (Bool-cases (contains c sep)) [
  | inl y ↦ rw y (tt, pieces-FreeOf cs sep)
  | inr n ↦ rw n (add_first-FreeOf c sep (pieces cs sep) n (pieces-FreeOf cs sep))
]

length-pieces : (s sep : Bytes) → length (pieces s sep) ≡ 1 + count_bytes sep s
unfolding pieces count_bytes
length-pieces [] sep = refl
length-pieces (c ∷ cs) sep = elim (Bool-cases (contains c sep)) [
  | inl y ↦ rw y (omega (arith, length-pieces cs sep))
  | inr n ↦
      rw (n, pieces-strsep cs sep)
        (omega (arith, length-pieces cs sep, ap length (pieces-strsep cs sep)))
]

join-add_first :
    (c d : ℕ) (p : Bytes) (ps : List Bytes) → join c ((d ∷ p) ∷ ps) ≡ d ∷ join c (p ∷ ps)
unfolding join
join-add_first c d p [] = refl
join-add_first c d p (q ∷ ps) = refl

join-nil_first : (c : ℕ) (p : Bytes) (ps : List Bytes) → join c ([] ∷ p ∷ ps) ≡ c ∷ join c (p ∷ ps)
unfolding join
join-nil_first c p ps = refl

contains_one : (c d : ℕ) → contains d (c ∷ []) ≡ (c == d)
unfolding contains
contains_one c d = ground arith

join-pieces : (s : Bytes) (c : ℕ) → join c (pieces s (c ∷ [])) ≡ s
unfolding pieces
join-pieces [] c = unfold join in refl
join-pieces (d ∷ cs) c = elim (Bool-cases (contains d (c ∷ []))) [
  | inl y ↦
      rw (y, pieces-strsep cs (c ∷ []))
        (rw join-nil_first
          (rw (← pieces-strsep cs (c ∷ [])) (ground (arith, join-pieces cs c, contains_one c d))))
  | inr n ↦
      rw (n, pieces-strsep cs (c ∷ []))
        (rw join-add_first (rw (← pieces-strsep cs (c ∷ [])) (ap (◌∷◌ d) (join-pieces cs c))))
]

-- What a list of parts is to the text `s` that was split at the byte `c`.
pub record Splits (c : ℕ) (s : Bytes) (parts : List Bytes) : Type 0 where
  pub joins : join c parts ≡ s
  pub free : All (FreeOf (c ∷ [])) parts
  pub counted : length parts ≡ 1 + count_bytes (c ∷ []) s

-- Split at one byte, the parts put together again with that byte between them are the text, no
-- part holds it, and there is one part more than the text has separators.
pub strsplit-Splits : (c : ℕ) (s : Bytes) → Splits c s (strsplit s (c ∷ []))
strsplit-Splits c s = rw strsplit-pieces (record {
  joins = join-pieces s c;
  free = pieces-FreeOf s (c ∷ []);
  counted = length-pieces s (c ∷ []);
})
