-- ===== src/Dict.antt =====
-- src/smf_dict.c: a dictionary of strings in three parallel arrays. A slot whose `key[i]` is NULL
-- (its `val[i]` is then NULL and its `hash[i]` is 0) is `none`. Allocation succeeds, and sizes stay
-- below 2 ^ 31, so that the `int` fields do not wrap.
pub mod Slots
pub mod Writes
pub mod Probe
pub mod Valid
pub mod Laws
pub mod Keys
use Prim.Native.Nat.{bit_xor}
use spmfilter.Base.{
  ℕ, zero, suc, ◌+◌, ◌*◌, ◌/◌, ◌%◌, ◌^◌, Bool, true, false, List, [], ◌∷◌, ◌++◌, Option, none, some,
  ◌==◌, ltb, ◌&&◌, if◌then◌else◌, Bytes, equal, get_or, set, replicate, ◌-◌,
}

abbrev u32_mod : ℕ
u32_mod = 2 ^ 32

-- `(unsigned)key[i]`, where `char` is signed: bytes from 128 up are extended by their sign.
abbrev from_char : ℕ → ℕ
from_char c = if ltb c 128 then c else c + (2 ^ 32 - 2 ^ 8)

-- The body of the loop of `_dict_hash`.
abbrev hash_byte : ℕ → ℕ → ℕ
hash_byte hash c =
    let h = (hash + from_char c) % u32_mod in
    let h' = (h + h * 2 ^ 10) % u32_mod in bit_xor h' (h' / 2 ^ 6)

unfoldable pub hash_loop : ℕ → Bytes → ℕ
hash_loop hash [] = hash
hash_loop hash (c ∷ cs) = hash_loop (hash_byte hash c) cs

unfoldable pub dict_hash : Bytes → ℕ
unfolding hash_loop
dict_hash key =
    let h = hash_loop 0 key in
    let h' = (h + h * 2 ^ 3) % u32_mod in
    let h'' = bit_xor h' (h' / 2 ^ 11) in (h'' + h'' * 2 ^ 15) % u32_mod

pub record Entry : Type 0 where
  pub key : Bytes
  pub val : Bytes
  pub hash : ℕ

abbrev pub Slot : Type 0
Slot = Option Entry

pub record Dict : Type 0 where
  pub n : ℕ
  pub size : ℕ
  pub slots : List Slot

unfoldable pub new : Dict
new = record { n = 0; size = 128; slots = replicate 128 none }

-- The test that the loops make of one slot: not NULL, the same hash value, the same key.
unfoldable pub holds : ℕ → Bytes → Slot → Bool
holds hash key none = false
holds hash key (some e) = hash == e.hash && equal key e.key

-- The loops `for (i = 0; i < dict->size; i++)` that look for a key: the index where they stop.
unfoldable pub find : ℕ → Bytes → List Slot → Option ℕ
find hash key [] = none
find hash key (s ∷ ss) = elim (holds hash key s) [
  | true ↦ some 0
  | false ↦ elim (find hash key ss) [ none ↦ none | some i ↦ some (suc i) ]
]

-- `smf_dict_get`
unfoldable pub get : Dict → Bytes → Option Bytes
get d key = elim (find (dict_hash key) key d.slots) [
  | none ↦ none
  | some i ↦ elim (get_or d.slots i none) [ none ↦ none | some e ↦ some e.val ]
]

-- `for (i = dict->n; dict->key[i]; ) { if(++i == dict->size) i = 0; }`, with fuel
unfoldable pub probe : ℕ → ℕ → List Slot → ℕ → ℕ
probe zero size slots i = i
probe (suc f) size slots i = elim (get_or slots i none) [
  | none ↦ i
  | some _ ↦ probe f size slots (if i + 1 == size then 0 else i + 1)
]

-- Room for one more key: a full dictionary is doubled, and the new half is empty.
unfoldable pub grow : Dict → Dict
grow d =
    if d.n == d.size
    then record d { size = d.size * 2; slots = d.slots ++ replicate d.size none }
    else d

-- The second half of `smf_dict_set`.
unfoldable pub add : Dict → Entry → Dict
add d e =
    let i = probe d.size d.size d.slots d.n in
    record d { n = d.n + 1; slots = set d.slots i (some e) }

-- `dict->val[i] = strdup(val)`
abbrev put_val : Slot → Bytes → Slot
put_val none val = none
put_val (some e) val = some (record e { val = val })

-- `smf_dict_set`
unfoldable pub dict_set : Dict → Bytes → Bytes → Dict
dict_set d key val =
    let hash = dict_hash key in
    let e : Entry = record { key = key; val = val; hash = hash } in
    elim (if ltb 0 d.n then find hash key d.slots else none) [
      | some i ↦ record d { slots = set d.slots i (put_val (get_or d.slots i none) val) }
      | none ↦ add (grow d) e
    ]

-- `smf_dict_remove`
unfoldable pub remove : Dict → Bytes → Dict
remove d key = elim (find (dict_hash key) key d.slots) [
  | none ↦ d
  | some i ↦ record d { n = d.n - 1; slots = set d.slots i none }
]

-- `smf_dict_get_keys`
unfoldable pub keys_of : List Slot → List Bytes
keys_of [] = []
keys_of (none ∷ ss) = keys_of ss
keys_of (some e ∷ ss) = e.key ∷ keys_of ss

unfoldable pub get_keys : Dict → List Bytes
get_keys d = keys_of d.slots

-- `smf_dict_map`: the callback over the keys, its effects on a state `S` in order. A value is NULL
-- only for a key that is not there.
unfoldable pub map_keys {ℓ} :
    {S : Type ℓ} → Dict → (Bytes → Option Bytes → S → S) → List Bytes → S → S
map_keys d func [] s = s
map_keys d func (k ∷ ks) s = map_keys d func ks (func k (get d k) s)

unfoldable pub dict_map {ℓ} : {S : Type ℓ} → Dict → (Bytes → Option Bytes → S → S) → S → S
unfolding map_keys
dict_map d func s = map_keys d func (get_keys d) s
