-- ===== src/Dict/Keys.antt =====
-- `smf_dict_get_keys` lists every key once.
use spmfilter.Base.{
  ℕ, suc, ◌+◌, List, [], ◌∷◌, Option, none, some, ◌≡◌, refl, sym, ap, ◌∙◌, arith, if◌then◌else◌,
  Bytes, equal, equal_iff, length,
}
use spmfilter.Dict.{Slot, Dict, get, get_keys, keys_of}
use spmfilter.Dict.Slots.{lookup, occupied, Distinct}
use spmfilter.Dict.Valid.{IsValid}
use spmfilter.Dict.Laws.{get-lookup}

-- How often a key stands in a list of keys.
unfoldable pub count_key : Bytes → List Bytes → ℕ
count_key k [] = 0
count_key k (j ∷ js) = (if equal k j then 1 else 0) + count_key k js

-- 1 for a key that has a value, else 0.
abbrev pub presence : Option Bytes → ℕ
presence none = 0
presence (some x) = 1

count-keys_of :
    (k : Bytes) (ss : List Slot) → Distinct ss → count_key k (keys_of ss) ≡ presence (lookup k ss)
unfolding count_key keys_of
count-keys_of k [] d = refl
count-keys_of k (none ∷ ss) d = count-keys_of k ss d
count-keys_of k (some e ∷ ss) d = ground (arith, count-keys_of k ss d.1, equal_iff k e.key)

length-keys_of : (ss : List Slot) → length (keys_of ss) ≡ occupied ss
unfolding keys_of
length-keys_of [] = refl
length-keys_of (none ∷ ss) = length-keys_of ss
length-keys_of (some e ∷ ss) = ap suc (length-keys_of ss)

-- The list of keys has each key with a value exactly once, no other key, and `n` elements.
pub get_keys_exact :
    (d : Dict)
    → IsValid d
    → ((k : Bytes) → count_key k (get_keys d) ≡ presence (get d k)) × (length (get_keys d) ≡ d.n)
unfolding get_keys
get_keys_exact d v = (
  λ k. count-keys_of k d.slots v.distinct ∙ ap presence (sym (get-lookup d k v)),
  length-keys_of d.slots ∙ sym v.n_eq,
)
