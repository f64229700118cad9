-- ===== src/Dict/Valid.antt =====
-- The invariant of a dictionary, and that growing keeps it and makes room.
use spmfilter.Base.{
  ℕ, ◌≤◌, ◌<◌, List, [], ◌∷◌, none, some, ◌==◌, ◌≡◌, inl, inr, arith, if◌then◌else◌, Bool-cases,
  Bytes, equal, get_or, replicate, length, length-append, length-replicate, length-set,
}
use spmfilter.Dict.{Entry, Slot, Dict, grow, add, probe, dict_hash}
use spmfilter.Dict.Slots.{lookup, occupied, Distinct, Hashed, lookup-set_free}
use spmfilter.Dict.Writes.{
  set_free-Distinct, set-Hashed, occupied-set_free, lookup-append_free, occupied-append_free,
  append_free-Distinct, append_free-Hashed,
}
use spmfilter.Dict.Probe.{free_slot, probe_free, distance-lt}

pub record IsValid (d : Dict) : Type 0 where
  pub size_eq : d.size ≡ length d.slots
  pub size_pos : 0 < d.size
  pub n_eq : d.n ≡ occupied d.slots
  pub distinct : Distinct d.slots
  pub hashed : Hashed d.slots

pub occupied-le : (ss : List Slot) → occupied ss ≤ length ss
occupied-le [] = omega arith
occupied-le (none ∷ ss) = omega (arith, occupied-le ss)
occupied-le (some e ∷ ss) = omega (arith, occupied-le ss)

-- A dictionary with room for one more key.
pub record HasRoom (d : Dict) : Type 0 where
  pub valid : IsValid d
  pub room : d.n < d.size

-- `smf_dict_set` doubles a full dictionary and no other, and the result has room.
pub grow-HasRoom : (d : Dict) → IsValid d → HasRoom (grow d)
unfolding grow
grow-HasRoom d v = elim (Bool-cases (d.n == d.size)) [
  | inl full ↦ rw full (record {
    valid = record {
      size_eq = omega (
        arith,
        v.size_eq,
        length-append d.slots (replicate d.size none),
        length-replicate {A = Slot} d.size none,
      );
      size_pos = omega (arith, v.size_pos);
      n_eq = rw occupied-append_free v.n_eq;
      distinct = append_free-Distinct d.size d.slots v.distinct;
      hashed = append_free-Hashed d.size d.slots v.hashed;
    };
    room = ground (arith, v.size_pos);
  })
  | inr free ↦
      rw free (record { valid = v; room = ground (arith, v.size_eq, v.n_eq, occupied-le d.slots) })
]

pub lookup-grow : (d : Dict) (k : Bytes) → lookup k (grow d).slots ≡ lookup k d.slots
unfolding grow
lookup-grow d k = elim (Bool-cases (d.n == d.size)) [
  | inl full ↦ rw full (lookup-append_free d.size k d.slots)
  | inr free ↦ rw free
]

-- Where a dictionary with room puts a new key: a free slot in range.
module _ (d : Dict) (r : HasRoom d) where
  abbrev place : ℕ
  place = probe d.size d.size d.slots d.n

  pub place_free : (place < length d.slots) × (get_or d.slots place none ≡ none)
  place_free =
      let (j, lt, g) = free_slot d.slots (omega (arith, r.room, r.valid.n_eq, r.valid.size_eq)) in
      let j-lt : j < d.size = omega (arith, r.valid.size_eq) in
      let p =
        probe_free d.size d.slots j j-lt g d.size d.n r.room
          (distance-lt d.size d.slots j j-lt g d.n r.room) in
      (omega (arith, p.0, r.valid.size_eq), p.1)

  module _ (e : Entry) (h : e.hash ≡ dict_hash e.key) (new_key : lookup e.key d.slots ≡ none) where
    pub add-IsValid : IsValid (add d e)
    unfolding add
    add-IsValid =
        let (lt, g) = place_free in
        record {
          size_eq = rw length-set r.valid.size_eq;
          size_pos = r.valid.size_pos;
          n_eq = omega (arith, occupied-set_free place d.slots e lt g, r.valid.n_eq);
          distinct = set_free-Distinct place d.slots e r.valid.distinct lt g new_key;
          hashed = set-Hashed place d.slots e r.valid.hashed h;
        }

    pub lookup-add :
        (j : Bytes)
        → lookup j (add d e).slots ≡ (if equal e.key j then some e.val else lookup j d.slots)
    unfolding add
    lookup-add j = let (lt, g) = place_free in lookup-set_free j place d.slots e lt g new_key
