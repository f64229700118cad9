-- ===== src/Dict/Slots.antt =====
-- The slots of a dictionary: what a search finds, and what a write to one slot changes.
use spmfilter.Base.{
  ℕ, zero, suc, ◌<◌, List, [], ◌∷◌, Option, none, some, ◌≡◌, ◌≢◌, refl, arith, if◌then◌else◌, Bytes,
  equal, equal_iff, get_or, set, length,
}
use spmfilter.Dict.{Entry, Slot, holds, find, dict_hash}

-- The value of the first slot with the key, whatever the hash values are.
abbrev pub lookup : Bytes → List Slot → Option Bytes
lookup k [] = none
lookup k (none ∷ ss) = lookup k ss
lookup k (some e ∷ ss) = if equal k e.key then some e.val else lookup k ss

abbrev pub occupied : List Slot → ℕ
occupied [] = 0
occupied (none ∷ ss) = occupied ss
occupied (some e ∷ ss) = suc (occupied ss)

-- No key stands in two slots.
abbrev pub Distinct : List Slot → Type 0
Distinct [] = Unit
Distinct (none ∷ ss) = Distinct ss
Distinct (some e ∷ ss) = (lookup e.key ss ≡ none) × Distinct ss

-- Every stored hash is that of its key.
abbrev pub Hashed : List Slot → Type 0
Hashed [] = Unit
Hashed (none ∷ ss) = Hashed ss
Hashed (some e ∷ ss) = (e.hash ≡ dict_hash e.key) × Hashed ss

holds-equal :
    (k : Bytes) (e : Entry)
    → e.hash ≡ dict_hash e.key
    → holds (dict_hash k) k (some e) ≡ equal k e.key
unfolding holds
holds-equal k e h = ground (arith, equal_iff k e.key)

pub find-none :
    (k : Bytes) (ss : List Slot) → Hashed ss → find (dict_hash k) k ss ≡ none → lookup k ss ≡ none
unfolding find
find-none k [] h f = refl
find-none k (none ∷ ss) h f = find-none k ss h (unfold holds in ground arith)
find-none k (some e ∷ ss) h f = ground (arith, holds-equal k e h.0, find-none k ss h.1)

-- Slot `i` holds the key `k`, and its value is that of `k`.
pub record Found (k : Bytes) (i : ℕ) (ss : List Slot) : Type 0 where
  pub entry : Entry
  pub at : get_or ss i none ≡ some entry
  pub key_eq : entry.key ≡ k
  pub value : lookup k ss ≡ some entry.val

pub find-some :
    (k : Bytes) (i : ℕ) (ss : List Slot)
    → Hashed ss
    → find (dict_hash k) k ss ≡ some i
    → Found k i ss
unfolding find
find-some k i [] h f = absurd (cc)
find-some k zero (none ∷ ss) h f = absurd (unfold holds in ground arith)
find-some k (suc i) (none ∷ ss) h f =
    let r = find-some k i ss h (unfold holds in ground arith) in
    record { entry = r.entry; at = r.at; key_eq = r.key_eq; value = r.value }
find-some k zero (some e ∷ ss) h f = record {
  entry = e;
  at = refl;
  key_eq = ground (arith, holds-equal k e h.0, equal_iff k e.key);
  value = ground (arith, holds-equal k e h.0);
}
find-some k (suc i) (some e ∷ ss) h f =
    let r = find-some k i ss h.1 (ground arith) in
    record {
      entry = r.entry;
      at = r.at;
      key_eq = r.key_eq;
      value = ground (arith, holds-equal k e h.0, r.value);
    }

-- A key that a slot holds is found.
pub lookup_at :
    (i : ℕ) (ss : List Slot) (e : Entry) → get_or ss i none ≡ some e → lookup e.key ss ≢ none
lookup_at i [] e g = absurd (cc)
lookup_at zero (none ∷ ss) e g = absurd (cc)
lookup_at zero (some x ∷ ss) e g = ground (arith, equal_iff e.key x.key)
lookup_at (suc i) (none ∷ ss) e g = lookup_at i ss e g
lookup_at (suc i) (some x ∷ ss) e g = ground (arith, lookup_at i ss e g)

-- A slot that holds the key gets another entry with that key.
pub lookup-set_held :
    (k j : Bytes) (i : ℕ) (ss : List Slot) (e e' : Entry)
    → Distinct ss
    → get_or ss i none ≡ some e
    → e.key ≡ k
    → e'.key ≡ k
    → lookup j (set ss i (some e')) ≡ (if equal k j then some e'.val else lookup j ss)
lookup-set_held k j i [] e e' d g p q = absurd (cc)
lookup-set_held k j zero (none ∷ ss) e e' d g p q = absurd (cc)
lookup-set_held k j zero (some x ∷ ss) e e' d g p q =
    ground (arith, equal_iff k j, equal_iff j e'.key, equal_iff j x.key)
lookup-set_held k j (suc i) (none ∷ ss) e e' d g p q = lookup-set_held k j i ss e e' d g p q
lookup-set_held k j (suc i) (some x ∷ ss) e e' d g p q = ground (
  arith,
  lookup-set_held k j i ss e e' d.1 g p q,
  lookup_at i ss e g,
  equal_iff k j,
  equal_iff j x.key,
)

-- A free slot gets the entry of a new key.
pub lookup-set_free :
    (j : Bytes) (i : ℕ) (ss : List Slot) (e : Entry)
    → i < length ss
    → get_or ss i none ≡ none
    → lookup e.key ss ≡ none
    → lookup j (set ss i (some e)) ≡ (if equal e.key j then some e.val else lookup j ss)
lookup-set_free j i [] e lt g p = absurd (omega arith)
lookup-set_free j zero (none ∷ ss) e lt g p = ground (arith, equal_iff e.key j, equal_iff j e.key)
lookup-set_free j zero (some x ∷ ss) e lt g p = absurd (cc)
lookup-set_free j (suc i) (none ∷ ss) e lt g p = lookup-set_free j i ss e (omega arith) g p
lookup-set_free j (suc i) (some x ∷ ss) e lt g p =
    ground
      (arith, lookup-set_free j i ss e, equal_iff e.key j, equal_iff j x.key, equal_iff e.key x.key)

-- The slot of a key is emptied.
pub lookup-set-none :
    (k j : Bytes) (i : ℕ) (ss : List Slot) (e : Entry)
    → Distinct ss
    → get_or ss i none ≡ some e
    → e.key ≡ k
    → lookup j (set ss i none) ≡ (if equal k j then none else lookup j ss)
lookup-set-none k j i [] e d g p = absurd (cc)
lookup-set-none k j zero (none ∷ ss) e d g p = absurd (cc)
lookup-set-none k j zero (some x ∷ ss) e d g p = ground (arith, equal_iff k j, equal_iff j x.key)
lookup-set-none k j (suc i) (none ∷ ss) e d g p = lookup-set-none k j i ss e d g p
lookup-set-none k j (suc i) (some x ∷ ss) e d g p = ground (
  arith,
  lookup-set-none k j i ss e d.1 g p,
  lookup_at i ss e g,
  equal_iff k j,
  equal_iff j x.key,
)
