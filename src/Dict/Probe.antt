-- ===== src/Dict/Probe.antt =====
-- The search for a free slot: it ends at one, since there is one and the index runs round.
use spmfilter.Base.{
  ℕ, zero, suc, ◌+◌, ◌-◌, ◌<◌, List, [], ◌∷◌, none, some, ◌==◌, ◌≡◌, ◌≢◌, refl, inl, inr, arith,
  leb, if◌then◌else◌, Option-cases, get_or, length,
}
use spmfilter.Dict.{Slot, probe}
use spmfilter.Dict.Slots.{occupied}

-- Where fewer slots are taken than there are, one is free.
pub free_slot :
    (ss : List Slot)
    → occupied ss < length ss
    → (j : ℕ) × (j < length ss) × (get_or ss j none ≡ none)
free_slot [] h = absurd (omega arith)
free_slot (none ∷ ss) h = (0, omega arith, refl)
free_slot (some e ∷ ss) h = let (j, lt, g) = free_slot ss (omega arith) in (suc j, omega arith, g)

-- The steps from `i` up to `j`, with the wrap at `size`.
abbrev distance : ℕ → ℕ → ℕ → ℕ
distance size i j = if leb i j then j - i else size - i + j

module _ (size : ℕ) (ss : List Slot) (j : ℕ) (j-lt : j < size)
    (free : get_or ss j none ≡ none) where
  -- One step forward is one step nearer.
  nearer :
      (i f : ℕ)
      → i < size
      → i ≢ j
      → distance size i j < suc f
      → distance size (if i + 1 == size then 0 else i + 1) j < f
  nearer i f lt ne d = ground arith

  -- With fuel above the distance to a free slot, the search ends at a free slot in range.
  pub probe_free :
      (f i : ℕ)
      → i < size
      → distance size i j < f
      → (probe f size ss i < size) × (get_or ss (probe f size ss i) none ≡ none)
  unfolding probe
  probe_free zero i lt d = absurd (omega arith)
  probe_free (suc f) i lt d = elim (Option-cases (get_or ss i none)) [
    | inl here ↦ rw (here, probe) (lt, here)
    | inr (e, taken) ↦
        rw (taken, probe)
          (probe_free f (if i + 1 == size then 0 else i + 1) (ground arith)
            (nearer i f lt (λ same. cc (same, taken, free)) d))
  ]

  pub distance-lt : (i : ℕ) → i < size → distance size i j < size
  distance-lt i h = ground arith
