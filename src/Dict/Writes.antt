-- ===== src/Dict/Writes.antt =====
-- A write to one slot keeps the slots' invariant and changes the number of entries as it should.
use spmfilter.Base.{
  ℕ, zero, suc, ◌<◌, List, [], ◌∷◌, ◌++◌, none, some, ◌≡◌, refl, ap, arith, Bytes, equal_iff,
  get_or, set, replicate, length,
}
use spmfilter.Dict.{Entry, Slot, dict_hash}
use spmfilter.Dict.Slots.{
  lookup, occupied, Distinct, Hashed, lookup_at, lookup-set_held, lookup-set_free, lookup-set-none,
}

pub set_held-Distinct :
    (i : ℕ) (ss : List Slot) (e e' : Entry)
    → Distinct ss
    → get_or ss i none ≡ some e
    → e'.key ≡ e.key
    → Distinct (set ss i (some e'))
set_held-Distinct i [] e e' d g p = tt
set_held-Distinct zero (none ∷ ss) e e' d g p = absurd (cc)
set_held-Distinct zero (some x ∷ ss) e e' d g p = (ground arith, d.1)
set_held-Distinct (suc i) (none ∷ ss) e e' d g p = set_held-Distinct i ss e e' d g p
set_held-Distinct (suc i) (some x ∷ ss) e e' d g p = (
  ground (
    arith,
    lookup-set_held e.key x.key i ss e e' d.1 g refl p,
    lookup_at i ss e g,
    equal_iff e.key x.key,
  ),
  set_held-Distinct i ss e e' d.1 g p,
)

pub set_free-Distinct :
    (i : ℕ) (ss : List Slot) (e : Entry)
    → Distinct ss
    → i < length ss
    → get_or ss i none ≡ none
    → lookup e.key ss ≡ none
    → Distinct (set ss i (some e))
set_free-Distinct i [] e d lt g p = tt
set_free-Distinct zero (none ∷ ss) e d lt g p = (p, d)
set_free-Distinct zero (some x ∷ ss) e d lt g p = absurd (cc)
set_free-Distinct (suc i) (none ∷ ss) e d lt g p = set_free-Distinct i ss e d (omega arith) g p
set_free-Distinct (suc i) (some x ∷ ss) e d lt g p = (
  ground (arith, lookup-set_free x.key i ss e, equal_iff e.key x.key),
  set_free-Distinct i ss e d.1 (omega arith) g (ground arith),
)

pub set-none-Distinct :
    (i : ℕ) (ss : List Slot) (e : Entry)
    → Distinct ss
    → get_or ss i none ≡ some e
    → Distinct (set ss i none)
set-none-Distinct i [] e d g = tt
set-none-Distinct zero (none ∷ ss) e d g = absurd (cc)
set-none-Distinct zero (some x ∷ ss) e d g = d.1
set-none-Distinct (suc i) (none ∷ ss) e d g = set-none-Distinct i ss e d g
set-none-Distinct (suc i) (some x ∷ ss) e d g =
    (ground (arith, lookup-set-none e.key x.key i ss e d.1 g refl), set-none-Distinct i ss e d.1 g)

pub set-Hashed :
    (i : ℕ) (ss : List Slot) (e : Entry)
    → Hashed ss
    → e.hash ≡ dict_hash e.key
    → Hashed (set ss i (some e))
set-Hashed i [] e h p = tt
set-Hashed zero (none ∷ ss) e h p = (p, h)
set-Hashed zero (some x ∷ ss) e h p = (p, h.1)
set-Hashed (suc i) (none ∷ ss) e h p = set-Hashed i ss e h p
set-Hashed (suc i) (some x ∷ ss) e h p = (h.0, set-Hashed i ss e h.1 p)

pub set-none-Hashed : (i : ℕ) (ss : List Slot) → Hashed ss → Hashed (set ss i none)
set-none-Hashed i [] h = tt
set-none-Hashed zero (none ∷ ss) h = h
set-none-Hashed zero (some x ∷ ss) h = h.1
set-none-Hashed (suc i) (none ∷ ss) h = set-none-Hashed i ss h
set-none-Hashed (suc i) (some x ∷ ss) h = (h.0, set-none-Hashed i ss h.1)

pub Hashed-at :
    (i : ℕ) (ss : List Slot) (e : Entry)
    → Hashed ss
    → get_or ss i none ≡ some e
    → e.hash ≡ dict_hash e.key
Hashed-at i [] e h g = absurd (cc)
Hashed-at zero (none ∷ ss) e h g = absurd (cc)
Hashed-at zero (some x ∷ ss) e h g = ground (arith, h.0)
Hashed-at (suc i) (none ∷ ss) e h g = Hashed-at i ss e h g
Hashed-at (suc i) (some x ∷ ss) e h g = Hashed-at i ss e h.1 g

-- How many slots are taken, after each kind of write.
pub occupied-set_held :
    (i : ℕ) (ss : List Slot) (e e' : Entry)
    → get_or ss i none ≡ some e
    → occupied (set ss i (some e')) ≡ occupied ss
occupied-set_held i [] e e' g = refl
occupied-set_held zero (none ∷ ss) e e' g = absurd (cc)
occupied-set_held zero (some x ∷ ss) e e' g = refl
occupied-set_held (suc i) (none ∷ ss) e e' g = occupied-set_held i ss e e' g
occupied-set_held (suc i) (some x ∷ ss) e e' g = ap suc (occupied-set_held i ss e e' g)

pub occupied-set_free :
    (i : ℕ) (ss : List Slot) (e : Entry)
    → i < length ss
    → get_or ss i none ≡ none
    → occupied (set ss i (some e)) ≡ suc (occupied ss)
occupied-set_free i [] e lt g = absurd (omega arith)
occupied-set_free zero (none ∷ ss) e lt g = refl
occupied-set_free zero (some x ∷ ss) e lt g = absurd (cc)
occupied-set_free (suc i) (none ∷ ss) e lt g = occupied-set_free i ss e (omega arith) g
occupied-set_free (suc i) (some x ∷ ss) e lt g = ap suc (occupied-set_free i ss e (omega arith) g)

pub occupied-set-none :
    (i : ℕ) (ss : List Slot) (e : Entry)
    → get_or ss i none ≡ some e
    → suc (occupied (set ss i none)) ≡ occupied ss
occupied-set-none i [] e g = absurd (cc)
occupied-set-none zero (none ∷ ss) e g = absurd (cc)
occupied-set-none zero (some x ∷ ss) e g = refl
occupied-set-none (suc i) (none ∷ ss) e g = occupied-set-none i ss e g
occupied-set-none (suc i) (some x ∷ ss) e g = ap suc (occupied-set-none i ss e g)

-- Free slots behind the old ones change nothing that a search can see.
module _ (m : ℕ) where
  pub lookup-append_free :
      (k : Bytes) (ss : List Slot) → lookup k (ss ++ replicate m none) ≡ lookup k ss
  lookup-append_free k [] = lookup_free m
    where
      lookup_free : (j : ℕ) → lookup k (replicate j none) ≡ none
      lookup_free zero = refl
      lookup_free (suc j) = lookup_free j
  lookup-append_free k (none ∷ ss) = lookup-append_free k ss
  lookup-append_free k (some e ∷ ss) = rw (lookup-append_free k ss)

  pub occupied-append_free : (ss : List Slot) → occupied (ss ++ replicate m none) ≡ occupied ss
  occupied-append_free [] = occupied_free m
    where
      occupied_free : (j : ℕ) → occupied (replicate j none) ≡ 0
      occupied_free zero = refl
      occupied_free (suc j) = occupied_free j
  occupied-append_free (none ∷ ss) = occupied-append_free ss
  occupied-append_free (some e ∷ ss) = ap suc (occupied-append_free ss)

  pub append_free-Distinct : (ss : List Slot) → Distinct ss → Distinct (ss ++ replicate m none)
  append_free-Distinct [] d = Distinct_free m
    where
      Distinct_free : (j : ℕ) → Distinct (replicate j none)
      Distinct_free zero = tt
      Distinct_free (suc j) = Distinct_free j
  append_free-Distinct (none ∷ ss) d = append_free-Distinct ss d
  append_free-Distinct (some e ∷ ss) d =
      (rw (lookup-append_free e.key ss) d.0, append_free-Distinct ss d.1)

  pub append_free-Hashed : (ss : List Slot) → Hashed ss → Hashed (ss ++ replicate m none)
  append_free-Hashed [] h = Hashed_free m
    where
      Hashed_free : (j : ℕ) → Hashed (replicate j none)
      Hashed_free zero = tt
      Hashed_free (suc j) = Hashed_free j
  append_free-Hashed (none ∷ ss) h = append_free-Hashed ss h
  append_free-Hashed (some e ∷ ss) h = (h.0, append_free-Hashed ss h.1)
