-- ===== src/Dict/Laws.antt =====
-- A dictionary is a finite map: what `smf_dict_get` returns after the other operations.
use spmfilter.Base.{
  ℕ, List, [], ◌∷◌, none, some, ◌≡◌, refl, sym, ◌∙◌, inl, inr, arith, ltb, if◌then◌else◌,
  Bool-cases, Option-cases, Bytes, equal, equal_iff, set, length-set,
}
use spmfilter.Dict.{Entry, Slot, Dict, new, grow, add, find, dict_hash, dict_set, remove, get}
use spmfilter.Dict.Slots.{
  lookup, occupied, Found, find-none, find-some, lookup-set_held, lookup-set-none,
}
use spmfilter.Dict.Writes.{
  set_held-Distinct, set-none-Distinct, set-Hashed, set-none-Hashed, Hashed-at, occupied-set_held,
  occupied-set-none,
}
use spmfilter.Dict.Valid.{IsValid, grow-HasRoom, lookup-grow, add-IsValid, lookup-add}

-- `smf_dict_new` gives an empty dictionary.
pub new-IsValid : IsValid new
unfolding new
new-IsValid = record {
  size_eq = refl;
  size_pos = omega arith;
  n_eq = refl;
  distinct = tt;
  hashed = tt;
}

pub get-lookup : (d : Dict) (k : Bytes) → IsValid d → get d k ≡ lookup k d.slots
unfolding get
get-lookup d k v = elim (Option-cases (find (dict_hash k) k d.slots)) [
  | inl absent ↦ rw (absent, get) (sym (find-none k d.slots v.hashed absent))
  | inr (i, found) ↦
      let f = find-some k i d.slots v.hashed found in rw (found, get) (rw f.at (sym f.value))
]

lookup-empty : (k : Bytes) (ss : List Slot) → occupied ss ≡ 0 → lookup k ss ≡ none
lookup-empty k [] h = refl
lookup-empty k (none ∷ ss) h = lookup-empty k ss h
lookup-empty k (some e ∷ ss) h = absurd (omega arith)

pub get-new : (k : Bytes) → get new k ≡ none
get-new k = get-lookup new k new-IsValid ∙ unfold new in refl

-- The entry that `smf_dict_set` writes where the key is new.
abbrev entry_of : Bytes → Bytes → Entry
entry_of k x = record { key = k; val = x; hash = dict_hash k }

-- The two ways of `smf_dict_set`: the key is found and its slot written, or it is added.
data SetView (d : Dict) (k x : Bytes) : Type 0 where
  replaced :
      (i : ℕ) (f : Found k i d.slots)
      → dict_set d k x ≡ record d { slots = set d.slots i (some (record f.entry { val = x })) }
      → SetView d k x
  added : lookup k d.slots ≡ none → dict_set d k x ≡ add (grow d) (entry_of k x) → SetView d k x

set_view : (d : Dict) (k x : Bytes) → IsValid d → SetView d k x
unfolding dict_set
set_view d k x v = elim (Bool-cases (ltb 0 d.n)) [
  | inr empty ↦ added (lookup-empty k d.slots (ground (arith, v.n_eq))) (rw (empty, dict_set))
  | inl some_keys ↦ elim (Option-cases (find (dict_hash k) k d.slots)) [
    | inl absent ↦
        added (find-none k d.slots v.hashed absent) (rw (some_keys, dict_set) (rw absent))
    | inr (i, found) ↦
        let f = find-some k i d.slots v.hashed found in
        replaced i f (rw (some_keys, dict_set) (rw found (rw f.at)))
  ]
]

-- `smf_dict_set` keeps the dictionary well-formed.
pub dict_set-IsValid : (d : Dict) (k x : Bytes) → IsValid d → IsValid (dict_set d k x)
dict_set-IsValid d k x v = go (set_view d k x v)
  where
    go : SetView d k x → IsValid (dict_set d k x)
    go (replaced i f e) = rw e (record {
      size_eq = rw length-set v.size_eq;
      size_pos = v.size_pos;
      n_eq = v.n_eq ∙ sym (occupied-set_held i d.slots f.entry (record f.entry { val = x }) f.at);
      distinct =
          set_held-Distinct i d.slots f.entry (record f.entry { val = x }) v.distinct f.at refl;
      hashed =
          set-Hashed i d.slots (record f.entry { val = x }) v.hashed
            (Hashed-at i d.slots f.entry v.hashed f.at);
    })
    go (added fresh e) =
        rw e (add-IsValid (grow d) (grow-HasRoom d v) (entry_of k x) refl (lookup-grow d k ∙ fresh))

-- After `smf_dict_set` of a key, a lookup of that key gives the new value, and a lookup of any
-- other key what it gave before.
pub get-dict_set :
    (d : Dict) (k x j : Bytes)
    → IsValid d
    → get (dict_set d k x) j ≡ (if equal k j then some x else get d j)
get-dict_set d k x j v =
    get-lookup (dict_set d k x) j (dict_set-IsValid d k x v)
    ∙ go (set_view d k x v)
    ∙ rw (get-lookup d j v)
  where
    go :
        SetView d k x
        → lookup j (dict_set d k x).slots ≡ (if equal k j then some x else lookup j d.slots)
    go (replaced i f e) = rw e (
        lookup-set_held k j i d.slots f.entry (record f.entry { val = x }) v.distinct f.at f.key_eq
          f.key_eq)
    go (added fresh e) = rw e (
        lookup-add (grow d) (grow-HasRoom d v) (entry_of k x) refl (lookup-grow d k ∙ fresh) j
        ∙ rw lookup-grow)

-- `smf_dict_remove` keeps the dictionary well-formed.
pub remove-IsValid : (d : Dict) (k : Bytes) → IsValid d → IsValid (remove d k)
unfolding remove
remove-IsValid d k v = elim (Option-cases (find (dict_hash k) k d.slots)) [
  | inl absent ↦ rw (absent, remove) v
  | inr (i, found) ↦
      let f = find-some k i d.slots v.hashed found in
      rw (found, remove)
        (record {
          size_eq = rw length-set v.size_eq;
          size_pos = v.size_pos;
          n_eq = omega (arith, occupied-set-none i d.slots f.entry f.at, v.n_eq);
          distinct = set-none-Distinct i d.slots f.entry v.distinct f.at;
          hashed = set-none-Hashed i d.slots v.hashed;
        })
]

lookup-remove :
    (d : Dict) (k j : Bytes)
    → IsValid d
    → lookup j (remove d k).slots ≡ (if equal k j then none else lookup j d.slots)
unfolding remove
lookup-remove d k j v = elim (Option-cases (find (dict_hash k) k d.slots)) [
  | inl absent ↦
      rw (absent, remove) (ground (arith, equal_iff k j, find-none k d.slots v.hashed absent))
  | inr (i, found) ↦
      let f = find-some k i d.slots v.hashed found in
      rw (found, remove) (lookup-set-none k j i d.slots f.entry v.distinct f.at f.key_eq)
]

-- After `smf_dict_remove` of a key, a lookup of that key gives NULL, and a lookup of any other key
-- what it gave before.
pub get-remove :
    (d : Dict) (k j : Bytes)
    → IsValid d
    → get (remove d k) j ≡ (if equal k j then none else get d j)
get-remove d k j v =
    get-lookup (remove d k) j (remove-IsValid d k v) ∙ lookup-remove d k j v ∙ rw (get-lookup d j v)
