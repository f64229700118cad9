-- ===== src/Lookup/Ldap/Query.antt =====
-- `smf_lookup_ldap_query` and `smf_lookup_ldap_get_scope` of src/smf_lookup_ldap.c.
use spmfilter.Base.{
  ℕ, ◌+◌, ◌==◌, Option, none, some, List, [], ◌∷◌, ◌++◌, if◌then◌else◌, Bytes, codes, pos, eq_ℤ,
}
use spmfilter.Dict.{Dict, new, dict_set}
use spmfilter.Settings.Facility.{strcasecmp_eq}
use spmfilter.Lookup.Ldap.{
  Scope, subtree, onelevel, base, Attribute, Ldap, Bound, ldap_connection, ldap_disconnect,
}

unfoldable pub get_scope : Bytes → Scope
unfolding codes
get_scope name =
    if strcasecmp_eq name (codes "subtree")
    then subtree
    else if strcasecmp_eq name (codes "onelevel")
    then onelevel
    else if strcasecmp_eq name (codes "base")
    then base
    else subtree

-- The loop over the values, from number `i`; a value is the text up to its first NUL.
unfoldable pub append_values : ℕ → Bytes → List Bytes → Bytes
append_values i text [] = text
append_values i text (v ∷ vs) =
    append_values (i + 1) (if i == 0 then text ++ v else text ++ (b',' ∷ v)) vs

-- The loop over the attributes of an entry.
unfoldable pub entry_dict : Dict → List Attribute → Dict
entry_dict d [] = d
entry_dict d (a ∷ rest) = entry_dict (dict_set d a.attr (append_values 0 [] a.values)) rest

-- The loop over the entries.
unfoldable pub entry_dicts : List (List Attribute) → List Dict
entry_dicts [] = []
entry_dicts (e ∷ es) = entry_dict new e ∷ entry_dicts es

abbrev pub result_of : List Dict → Option (List Dict)
result_of [] = none
result_of (d ∷ ds) = some (d ∷ ds)

module _ {L W : Type 0} (lib : Ldap L W) (random : ℕ) where
  unfoldable pub ldap_release : Bound L W → Bound L W
  ldap_release b = if eq_ℤ b.settings.lookup_persistent (pos 1) then b else ldap_disconnect lib b

  -- The search, for a handle. None for a scope that is NULL.
  unfoldable pub ldap_search :
      L → Bytes → Bytes → Bound L W → Option (Option (List Dict) × Bound L W)
  ldap_search ld dir filter b = elim b.settings.ldap_scope [
    | none ↦ none
    | some scope ↦
        let (es, w) = lib.search b.world ld dir (get_scope scope) filter in
        some (result_of (entry_dicts es), ldap_release (record b { world = w }))
  ]

  -- An empty text is not searched for, and leaves the connection.
  abbrev pub ask :
      Bytes → Bytes → Option (Option L × Bound L W) → Option (Option (List Dict) × Bound L W)
  ask dir filter none = none
  ask dir filter (some (none, b)) = some (none, b)
  ask dir [] (some (some ld, b)) = some (none, b)
  ask dir (c ∷ cs) (some (some ld, b)) = ldap_search ld dir (c ∷ cs) b

  -- None where the program stops.
  unfoldable pub ldap_query : Bytes → Bound L W → Option (Option (List Dict) × Bound L W)
  ldap_query filter b = elim b.settings.ldap_base [
    | none ↦ some (none, b)
    | some dir ↦ ask dir filter (ldap_connection lib random b)
  ]
