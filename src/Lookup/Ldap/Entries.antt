-- ===== src/Lookup/Ldap/Entries.antt =====
-- What the dictionaries of `smf_lookup_ldap_query` hold, and which handles it leaves.
use spmfilter.Base.{
  ◌≡◌, refl, sym, ap, ◌∙◌, ◌⊎◌, inl, inr, Option, none, some, List, [], ◌∷◌, ◌++◌, if◌then◌else◌, ℕ,
  ◌+◌, ◌==◌, false, ◌<◌, arith, Bytes, equal, pos, eq_ℤ, eq_ℤ_iff, Option-cases, Bool-cases,
  append-nil, append_assoc,
}
use mathlib.Core.Path.{subst}
use mathlib.Core.Option.{some_inj}
use spmfilter.Core.Split.{join}
use spmfilter.Dict.{Dict, new, get, dict_set}
use spmfilter.Dict.Valid.{IsValid}
use spmfilter.Dict.Laws.{get-dict_set, get-new, dict_set-IsValid, new-IsValid}
use spmfilter.Lookup.Ldap.{Attribute, Ldap, Bound, ldap_connection, ldap_disconnect}
use spmfilter.Lookup.Ldap.Query.{
  append_values, entry_dict, entry_dicts, result_of, get_scope, ldap_release, ldap_search, ask,
  ldap_query,
}

abbrev commas : List Bytes → Bytes
commas [] = []
commas (v ∷ vs) = b',' ∷ (v ++ commas vs)

later_values :
    (vs : List Bytes) (i : ℕ) (text : Bytes) → 0 < i → append_values i text vs ≡ text ++ commas vs
unfolding append_values
later_values [] i text h = sym (append-nil text)
later_values (v ∷ vs) i text h =
    let apart : (i == 0) ≡ false = ground arith in
    rw apart (
      later_values vs (i + 1) (text ++ (b',' ∷ v)) (omega arith)
      ∙ append_assoc text (b',' ∷ v) (commas vs))

commas-join : (vs : List Bytes) (v : Bytes) → v ++ commas vs ≡ join b',' (v ∷ vs)
unfolding join
commas-join [] v = append-nil v
commas-join (u ∷ us) v = ap (λ x. v ++ (b',' ∷ x)) (commas-join us u)

-- The values of an attribute are joined by commas.
append_values-join : (vs : List Bytes) → append_values 0 [] vs ≡ join b',' vs
unfolding append_values join
append_values-join [] = refl
append_values-join (v ∷ vs) = later_values vs 1 v (omega arith) ∙ commas-join vs v

-- The values of the last attribute with a name.
abbrev pub last_values : Bytes → List Attribute → Option Bytes → Option Bytes
last_values k [] v = v
last_values k (a ∷ rest) v =
    last_values k rest (if equal a.attr k then some (join b',' a.values) else v)

entry_dict-get :
    (e : List Attribute) (d : Dict) (k : Bytes)
    → IsValid d
    → get (entry_dict d e) k ≡ last_values k e (get d k)
unfolding entry_dict
entry_dict-get [] d k v = refl
entry_dict-get (a ∷ rest) d k v =
    let text = append_values 0 [] a.values in
    entry_dict-get rest (dict_set d a.attr text) k (dict_set-IsValid d a.attr text v)
    ∙ ap (λ o. last_values k rest o)
        (get-dict_set d a.attr text k v
          ∙ ap (λ x. if equal a.attr k then some x else get d k) (append_values-join a.values))

-- The dictionaries give the attributes of the entries, in the order of the entries.
abbrev pub ListsEntries : List Dict → List (List Attribute) → Type 0
ListsEntries [] [] = Unit
ListsEntries [] (e ∷ es) = ⊥
ListsEntries (d ∷ ds) [] = ⊥
ListsEntries (d ∷ ds) (e ∷ es) = ((k : Bytes) → get d k ≡ last_values k e none) × ListsEntries ds es

entry_dicts-ListsEntries : (es : List (List Attribute)) → ListsEntries (entry_dicts es) es
unfolding entry_dicts
entry_dicts-ListsEntries [] = tt
entry_dicts-ListsEntries (e ∷ es) = (
  λ k. entry_dict-get e new k new-IsValid ∙ ap (λ o. last_values k e o) (get-new k),
  entry_dicts-ListsEntries es,
)

result_of-some : (ds got : List Dict) → result_of got ≡ some ds → got ≡ ds
result_of-some ds [] h = absurd (cc)
result_of-some ds (d ∷ got) h = some_inj.0 h

module _ {L W : Type 0} (lib : Ldap L W) (random : ℕ) where
  -- The entries that a handle finds below the base, and a handle that is kept only if it is to
  -- persist.
  unfoldable pub IsFound : Bytes → Option Bytes → List Dict → Bound L W → Type 0
  IsFound filter dir ds t =
      ((w : W) × ((ld : L) × ((where_to : Bytes) × ((scope : Bytes) × ((dir ≡ some where_to)
                × ((t.settings.ldap_scope ≡ some scope)
                    × ListsEntries ds (lib.search w ld where_to (get_scope scope) filter).0))))))
      × ((t.settings.lookup_persistent ≡ pos 1) ⊎ (t.connection ≡ none))

  connection-ldap_disconnect : (b : Bound L W) → (ldap_disconnect lib b).connection ≡ none
  unfolding ldap_disconnect
  connection-ldap_disconnect b = elim (Option-cases b.connection) [
    | inl n ↦ rw (n, ldap_disconnect) n
    | inr (ld, e) ↦ rw (e, ldap_disconnect) refl
  ]

  settings-ldap_disconnect : (b : Bound L W) → (ldap_disconnect lib b).settings ≡ b.settings
  unfolding ldap_disconnect
  settings-ldap_disconnect b = elim (Option-cases b.connection) [
    | inl n ↦ rw (n, ldap_disconnect) refl
    | inr (ld, e) ↦ rw (e, ldap_disconnect) refl
  ]

  ldap_release-kept :
      (b : Bound L W)
      → let t = ldap_release lib random b in
        (t.settings ≡ b.settings) × ((t.settings.lookup_persistent ≡ pos 1) ⊎ (t.connection ≡ none))
  unfolding ldap_release
  ldap_release-kept b = elim (Bool-cases (eq_ℤ b.settings.lookup_persistent (pos 1))) [
    | inl y ↦ rw (y, ldap_release) (refl, inl ((eq_ℤ_iff _ _).0 y))
    | inr n ↦ rw (n, ldap_release) (settings-ldap_disconnect b, inr (connection-ldap_disconnect b))
  ]

  ldap_search-IsFound :
      (ld : L) (dir filter : Bytes) (b t : Bound L W) (ds : List Dict)
      → ldap_search lib random ld dir filter b ≡ some (some ds, t)
      → IsFound filter (some dir) ds t
  unfolding ldap_search IsFound
  ldap_search-IsFound ld dir filter b t ds h = elim (Option-cases b.settings.ldap_scope) [
    | inl n ↦ let stops : none ≡ some (some ds, t) = rw (n, ldap_search) at h in absurd (cc)
    | inr (scope, s) ↦
        let found = lib.search b.world ld dir (get_scope scope) filter in
        let last = record b { world = found.1 } in
        let both : some (result_of (entry_dicts found.0), ldap_release lib random last)
            ≡ some (some ds, t) =
          rw (s, ldap_search) at h in
        let pair = some_inj.0 both in
        let same =
          result_of-some ds (entry_dicts found.0)
            (ap (λ (x : Option (List Dict) × Bound L W). x.0) pair) in
        let ends = ap (λ (x : Option (List Dict) × Bound L W). x.1) pair in
        let kept = ldap_release-kept last in
        (
          (
            b.world,
            (
              ld,
              (
                dir,
                (
                  scope,
                  (
                    refl,
                    (
                      ap (λ (x : Bound L W). x.settings.ldap_scope) (sym ends)
                          ∙ (ap (λ x. x.ldap_scope) kept.0 ∙ s),
                      subst (λ x. ListsEntries x found.0) same (entry_dicts-ListsEntries found.0),
                    ),
                  ),
                ),
              ),
            ),
          ),
          subst (λ (x : Bound L W). (x.settings.lookup_persistent ≡ pos 1) ⊎ (x.connection ≡ none))
              ends kept.1,
        )
  ]

  ask-IsFound :
      (dir filter : Bytes) (a : Option (Option L × Bound L W)) (t : Bound L W) (ds : List Dict)
      → ask lib random dir filter a ≡ some (some ds, t)
      → IsFound filter (some dir) ds t
  ask-IsFound dir filter none t ds h = absurd (cc)
  ask-IsFound dir filter (some (none, b)) t ds h = absurd (cc)
  ask-IsFound dir [] (some (some ld, b)) t ds h = absurd (cc)
  ask-IsFound dir (c ∷ cs) (some (some ld, b)) t ds h = ldap_search-IsFound ld dir (c ∷ cs) b t ds h

  -- The list that `smf_lookup_ldap_query` returns is what a search below the base of the settings
  -- finds, with the scope of the settings: a dictionary for each entry, in the order of the entries,
  -- in which each name of an attribute has the values, joined by commas, of the last attribute with
  -- that name. No connection is left unless `lookup_persistent` is 1.
  pub ldap_query-IsFound :
      (filter : Bytes) (b t : Bound L W) (ds : List Dict)
      → ldap_query lib random filter b ≡ some (some ds, t)
      → IsFound filter b.settings.ldap_base ds t
  unfolding ldap_query
  ldap_query-IsFound filter b t ds h = elim (Option-cases b.settings.ldap_base) [
    | inl n ↦
        let nothing : some (none, b) ≡ some (some ds, t) = rw (n, ldap_query) at h in absurd (cc)
    | inr (dir, e) ↦
        let rest : ask lib random dir filter (ldap_connection lib random b) ≡ some (some ds, t) =
          rw (e, ldap_query) at h in
        rw e (ask-IsFound dir filter _ t ds rest)
  ]
