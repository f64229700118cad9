-- ===== src/Users/Copy.antt =====
-- `smf_internal_copy_user_data` copies a dictionary.
use spmfilter.Base.{
  ◌<◌, false, List, [], ◌∷◌, none, some, ◌≡◌, refl, sym, ap, ◌∙◌, inl, inr, arith, Bool-cases,
  Option-cases, Bytes, equal, equal_iff,
}
use spmfilter.Dict
use spmfilter.Dict.{Dict}
use spmfilter.Dict.Valid.{IsValid}
use spmfilter.Dict.Laws.{get-dict_set, dict_set-IsValid, new-IsValid, get-new}
use spmfilter.Dict.Keys.{count_key, presence, get_keys_exact}
use spmfilter.Users.{copy_keys, copy_user_data}

-- What one round does to the dictionary.
abbrev put : Dict → Bytes → Dict → Dict
put o k d = elim (Dict.get o k) [ none ↦ d | some v ↦ Dict.dict_set d k v ]

put-IsValid : (o : Dict) (k : Bytes) (d : Dict) → IsValid d → IsValid (put o k d)
put-IsValid o k d v = elim (Option-cases (Dict.get o k)) [
  | inl e ↦ rw (e, put) v
  | inr (x, e) ↦ rw (e, put) (dict_set-IsValid d k x v)
]

get-put_ne :
    (o : Dict) (k : Bytes) (d : Dict) (j : Bytes)
    → IsValid d
    → equal j k ≡ false
    → Dict.get (put o k d) j ≡ Dict.get d j
get-put_ne o k d j v n = elim (Option-cases (Dict.get o k)) [
  | inl e ↦ rw (e, put)
  | inr (x, e) ↦ rw (e, put) (get-dict_set d k x j v ∙ ground (arith, equal_iff k j, equal_iff j k))
]

get-put_self :
    (o : Dict) (d : Dict) (j : Bytes) {x : Bytes}
    → IsValid d
    → Dict.get o j ≡ some x
    → Dict.get (put o j d) j ≡ some x
get-put_self o d j {x} v e = rw (e, put) (get-dict_set d j x j v ∙ ground (arith, equal_iff j j))

copy_keys-IsValid : (o : Dict) (ks : List Bytes) (d : Dict) → IsValid d → IsValid (copy_keys o ks d)
unfolding copy_keys
copy_keys-IsValid o [] d v = v
copy_keys-IsValid o (k ∷ ks) d v = copy_keys-IsValid o ks (put o k d) (put-IsValid o k d v)

get-copy_keys_absent :
    (o : Dict) (ks : List Bytes) (d : Dict) (j : Bytes)
    → IsValid d
    → count_key j ks ≡ 0
    → Dict.get (copy_keys o ks d) j ≡ Dict.get d j
unfolding copy_keys count_key
get-copy_keys_absent o [] d j v c = refl
get-copy_keys_absent o (k ∷ ks) d j v c =
    get-copy_keys_absent o ks (put o k d) j (put-IsValid o k d v) (ground arith)
    ∙ get-put_ne o k d j v (ground arith)

get-copy_keys_kept :
    (o : Dict) (ks : List Bytes) (d : Dict) (j : Bytes) {x : Bytes}
    → IsValid d
    → Dict.get o j ≡ some x
    → Dict.get d j ≡ some x
    → Dict.get (copy_keys o ks d) j ≡ some x
unfolding copy_keys
get-copy_keys_kept o [] d j v e g = g
get-copy_keys_kept o (k ∷ ks) d j {x} v e g =
    get-copy_keys_kept o ks (put o k d) j (put-IsValid o k d v) e (elim (Bool-cases (equal j k)) [
      | inl y ↦
          let same : j ≡ k = (equal_iff j k).0 y in
          ap (λ i. Dict.get (put o i d) j) (sym same) ∙ get-put_self o d j v e
      | inr n ↦ get-put_ne o k d j v n ∙ g
    ])

get-copy_keys_listed :
    (o : Dict) (ks : List Bytes) (d : Dict) (j : Bytes) {x : Bytes}
    → IsValid d
    → Dict.get o j ≡ some x
    → 0 < count_key j ks
    → Dict.get (copy_keys o ks d) j ≡ some x
unfolding copy_keys count_key
get-copy_keys_listed o [] d j v e c = absurd (omega arith)
get-copy_keys_listed o (k ∷ ks) d j {x} v e c = elim (Bool-cases (equal j k)) [
  | inl y ↦ get-copy_keys_kept o ks (put o k d) j (put-IsValid o k d v) e (
      let same : j ≡ k = (equal_iff j k).0 y in
      ap (λ i. Dict.get (put o i d) j) (sym same) ∙ get-put_self o d j v e)
  | inr n ↦ get-copy_keys_listed o ks (put o k d) j (put-IsValid o k d v) e (ground arith)
]

-- The copy of a dictionary gives every key the value that the origin gives it.
pub get-copy_user_data :
    (o : Dict) (j : Bytes) → IsValid o → Dict.get (copy_user_data (some o)) j ≡ Dict.get o j
unfolding copy_user_data
get-copy_user_data o j v = elim (Option-cases (Dict.get o j)) [
  | inl e ↦
      get-copy_keys_absent o (Dict.get_keys o) Dict.new j new-IsValid
        ((get_keys_exact o v).0 j ∙ ap presence e)
      ∙ get-new j
      ∙ sym e
  | inr (x, e) ↦
      get-copy_keys_listed o (Dict.get_keys o) Dict.new j new-IsValid e
        (omega (arith, (get_keys_exact o v).0 j, ap presence e))
      ∙ sym e
]
