-- ===== src/Lookup/Query.antt =====
-- `smf_lookup_sql_query` of src/smf_lookup_sql.c: the rows that a database answers with, each as a
-- dictionary.
pub mod Rows
use spmfilter.Base.{
  Bool, true, false, Option, none, some, List, [], ◌∷◌, if◌then◌else◌, ℕ, Bytes, ℤ, pos, eq_ℤ,
}
use spmfilter.Dict.{Dict, new, dict_set}
use spmfilter.Core.Strip.{strstrip}
use spmfilter.Lookup.Pool.{Zdb, Link, disconnect, connect, obtain}

-- A column of a row, and the text that starts at its blob; none for NULL, which stands for an SQL NULL.
pub record Column : Type 0 where
  pub name : Bytes
  pub value : Option Bytes

-- `Connection_executeQuery` with all rows of its result, for a text that libzdb reads as a format;
-- none where it throws.
abbrev pub Execute : Type 0 → Type 0 → Type 0
Execute C W = W → C → Bytes → Option (List (List Column)) × W

-- `smf_dict_set` for the columns of a row; none where it stops the program, for NULL.
unfoldable pub row_dict : Dict → List Column → Option Dict
row_dict d [] = some d
row_dict d (c ∷ cs) = elim c.value [ none ↦ none | some v ↦ row_dict (dict_set d c.name v) cs ]

unfoldable pub dicts_of : List (List Column) → Option (List Dict)
dicts_of [] = some []
dicts_of (r ∷ rs) =
    let rest = dicts_of rs in
    elim (row_dict new r) [
      | none ↦ none
      | some d ↦ elim rest [ none ↦ none | some ds ↦ some (d ∷ ds) ]
    ]

abbrev pub is_empty : Bytes → Bool
is_empty [] = true
is_empty (c ∷ cs) = false

module _ {P C W : Type 0} (db : Zdb P C W) (execute : Execute C W) (random : ℕ)
    (home : Option Bytes) where
  -- What follows a call of `smf_lookup_sql_connect`: NULL is returned where it has failed.
  abbrev pub if_connected :
      Option (ℤ × Link P W)
      → (Link P W → Option (Option P × Link P W))
      → Option (Option P × Link P W)
  if_connected none next = none
  if_connected (some (ret, l)) next = if eq_ℤ ret (pos 0) then next l else some (none, l)

  -- `con->pool`. After a connect for a pool that is NULL, `con` has been freed.
  abbrev pub pool_of : Option (Option P) → Link P W → Option (Option P × Link P W)
  pool_of none l = none
  pool_of (some none) l = if_connected (connect db random home l) (λ l1. none)
  pool_of (some (some p)) l = some (some p, l)

  unfoldable pub active : Link P W → Option (Option P × Link P W)
  active l = elim l.connection [
    | none ↦ if_connected (connect db random home l) (λ l1. pool_of l1.connection l1)
    | some pool ↦ pool_of (some pool) l
  ]

  unfoldable pub release : Link P W → Link P W
  release l = if eq_ℤ l.settings.lookup_persistent (pos 1) then l else disconnect db l

  -- The rows for a connection of the pool. Where the query throws, the connection is kept.
  unfoldable pub fetch : P → Link P W → Bytes → Option (Option (List Dict) × Link P W)
  fetch p l q =
      let (c, w) = obtain db p l.world in
      elim c [
        | none ↦ none
        | some con ↦
            let (rows, w1) = execute w con q in
            elim rows [
              | none ↦ some (none, record l { world = w1 })
              | some rs ↦ elim (dicts_of rs) [
                | none ↦ none
                | some ds ↦ some (some ds, release (record l { world = db.close w1 con }))
              ]
            ]
      ]

  abbrev pub fetch_from :
      Option (Option P × Link P W) → Bytes → Option (Option (List Dict) × Link P W)
  fetch_from none q = none
  fetch_from (some (none, l)) q = some (none, l)
  fetch_from (some (some p, l)) q = fetch p l q

  -- For the text that `vasprintf` makes; none where the program stops.
  unfoldable pub query : Link P W → Bytes → Option (Option (List Dict) × Link P W)
  query l text =
      let q = strstrip text in if is_empty q then some (none, l) else fetch_from (active l) q
