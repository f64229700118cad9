-- ===== src/Lookup/Query/Rows.antt =====
-- What the dictionaries of `smf_lookup_sql_query` hold, and what a query leaves of its connection.
use spmfilter.Base.{
  ◌≡◌, refl, ap, ◌∙◌, ◌⊎◌, Option, none, some, List, [], ◌∷◌, if◌then◌else◌, ℕ, Bytes, equal, pos,
  eq_ℤ, eq_ℤ_iff, Option-cases, Bool-cases, inl, inr,
}
use mathlib.Core.Path.{subst}
use mathlib.Core.Option.{some_inj}
use spmfilter.Dict.{Dict, new, get, dict_set}
use spmfilter.Dict.Valid.{IsValid}
use spmfilter.Dict.Laws.{get-dict_set, get-new, dict_set-IsValid, new-IsValid}
use spmfilter.Core.Strip.{strstrip}
use spmfilter.Lookup.Pool.{Zdb, Link, obtain}
use spmfilter.Lookup.Failover.{connection-disconnect}
use spmfilter.Lookup.Query.{
  Column, Execute, row_dict, dicts_of, active, release, fetch, fetch_from, is_empty, query,
}

-- The value of the last column with a name.
abbrev pub last_value : Bytes → List Column → Option Bytes → Option Bytes
last_value k [] v = v
last_value k (c ∷ cs) v = last_value k cs (if equal c.name k then c.value else v)

row_dict-get :
    (cs : List Column) (d e : Dict) (k : Bytes)
    → IsValid d
    → row_dict d cs ≡ some e
    → get e k ≡ last_value k cs (get d k)
unfolding row_dict
row_dict-get [] d e k v h = rw (some_inj.0 h) refl
row_dict-get (c ∷ cs) d e k v h = elim (Option-cases c.value) [
  | inl n ↦ let stops : none ≡ some e = rw n at h in absurd (cc)
  | inr (x, s) ↦
      let rest : row_dict (dict_set d c.name x) cs ≡ some e = rw s at h in
      row_dict-get cs (dict_set d c.name x) e k (dict_set-IsValid d c.name x v) rest
      ∙ ap (λ o. last_value k cs o) (get-dict_set d c.name x k v ∙ rw s refl)
]

-- The dictionaries give the columns of the rows, in the order of the rows.
abbrev pub Describes : List Dict → List (List Column) → Type 0
Describes [] [] = Unit
Describes [] (r ∷ rs) = ⊥
Describes (d ∷ ds) [] = ⊥
Describes (d ∷ ds) (r ∷ rs) = ((k : Bytes) → get d k ≡ last_value k r none) × Describes ds rs

dicts_of-Describes :
    (rs : List (List Column)) (ds : List Dict) → dicts_of rs ≡ some ds → Describes ds rs
unfolding dicts_of
dicts_of-Describes [] ds h = subst (λ x. Describes x []) (some_inj.0 h) tt
dicts_of-Describes (r ∷ rs) ds h = elim (Option-cases (row_dict new r)) [
  | inl n ↦ let stops : none ≡ some ds = rw (n, dicts_of) at h in absurd (cc)
  | inr (d, e) ↦ elim (Option-cases (dicts_of rs)) [
    | inl n ↦ let stops : none ≡ some ds = rw (e, n, dicts_of) at h in absurd (cc)
    | inr (rest, m) ↦
        let both : some (d ∷ rest) ≡ some ds = rw (e, m, dicts_of) at h in
        subst (λ x. Describes x (r ∷ rs)) (some_inj.0 both)
          (
            λ k. row_dict-get r new d k new-IsValid e ∙ ap (λ o. last_value k r o) (get-new k),
            dicts_of-Describes rs rest m,
          )
  ]
]

module _ {P C W : Type 0} (db : Zdb P C W) (execute : Execute C W) (random : ℕ)
    (home : Option Bytes) where
  -- The rows that a connection out of the pool answers a text with, and a link that is kept only
  -- if it is to persist.
  unfoldable pub IsAnswer : Bytes → List Dict → Link P W → Type 0
  IsAnswer q ds t =
      ((p : P) × ((w : W) × ((con : C) × ((rs : List (List Column)) × (((obtain db p w).0
                  ≡ some con)
                × (((execute (obtain db p w).1 con q).0 ≡ some rs) × Describes ds rs))))))
      × ((t.settings.lookup_persistent ≡ pos 1) ⊎ (t.connection ≡ none))

  release-kept :
      (l : Link P W)
      → let t = release db execute random home l in
        (t.settings.lookup_persistent ≡ pos 1) ⊎ (t.connection ≡ none)
  unfolding release
  release-kept l = elim (Bool-cases (eq_ℤ l.settings.lookup_persistent (pos 1))) [
    | inl y ↦ inl (rw (y, release) ((eq_ℤ_iff _ _).0 y))
    | inr n ↦ inr (rw (n, release) (connection-disconnect db l))
  ]

  fetch-IsAnswer :
      (p : P) (l t : Link P W) (q : Bytes) (ds : List Dict)
      → fetch db execute random home p l q ≡ some (some ds, t)
      → IsAnswer q ds t
  unfolding fetch IsAnswer
  fetch-IsAnswer p l t q ds h = elim (Option-cases (obtain db p l.world).0) [
    | inl n ↦ let stops : none ≡ some (some ds, t) = rw (n, fetch) at h in absurd (cc)
    | inr (con, c) ↦
        let w = (obtain db p l.world).1 in
        elim (Option-cases (execute w con q).0) [
          | inl n ↦
              let thrown : some (none, record l { world = (execute w con q).1 })
                  ≡ some (some ds, t) =
                rw (c, n, fetch) at h in
              absurd (cc)
          | inr (rs, r) ↦ elim (Option-cases (dicts_of rs)) [
            | inl n ↦ let stops : none ≡ some (some ds, t) = rw (c, r, n, fetch) at h in absurd (cc)
            | inr (got, g) ↦
                let last = record l { world = db.close (execute w con q).1 con } in
                let both : some (some got, release db execute random home last)
                    ≡ some (some ds, t) =
                  rw (c, r, g, fetch) at h in
                let pair = some_inj.0 both in
                let same : got ≡ ds =
                  some_inj.0 (ap (λ (x : Option (List Dict) × Link P W). x.0) pair) in
                (
                  (
                    p,
                    (l.world, (con, (rs, (c, (r, dicts_of-Describes rs ds (g ∙ ap some same)))))),
                  ),
                  subst
                      (λ (x : Link P W).
                        (x.settings.lookup_persistent ≡ pos 1) ⊎ (x.connection ≡ none))
                      (ap (λ (x : Option (List Dict) × Link P W). x.1) pair) (release-kept last),
                )
          ]
        ]
  ]

  fetch_from-IsAnswer :
      (a : Option (Option P × Link P W)) (t : Link P W) (q : Bytes) (ds : List Dict)
      → fetch_from db execute random home a q ≡ some (some ds, t)
      → IsAnswer q ds t
  fetch_from-IsAnswer none t q ds h = absurd (cc)
  fetch_from-IsAnswer (some (none, l)) t q ds h = absurd (cc)
  fetch_from-IsAnswer (some (some p, l)) t q ds h = fetch-IsAnswer p l t q ds h

  -- The list that `smf_lookup_sql_query` returns is the answer of a connection out of the pool to the stripped text: a
  -- dictionary for each row, in the order of the rows, in which each name of a column has the value
  -- of the last column with that name. No connection is left unless `lookup_persistent` is 1.
  pub query-IsAnswer :
      (l t : Link P W) (text : Bytes) (ds : List Dict)
      → query db execute random home l text ≡ some (some ds, t)
      → IsAnswer (strstrip text) ds t
  unfolding query
  query-IsAnswer l t text ds h = elim (Bool-cases (is_empty (strstrip text))) [
    | inl y ↦ let nothing : some (none, l) ≡ some (some ds, t) = rw (y, query) at h in absurd (cc)
    | inr n ↦
        let rest : fetch_from db execute random home (active db execute random home l)
              (strstrip text)
            ≡ some (some ds, t) =
          rw (n, query) at h in
        fetch_from-IsAnswer _ t (strstrip text) ds rest
  ]
