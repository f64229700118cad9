-- ===== src/Lookup/Dsn.antt =====
-- `smf_lookup_sql_get_dsn` and `smf_lookup_sql_get_rand_host` of src/smf_lookup_sql.c. The number that
-- `rand` returns and the value of HOME are parameters.
use spmfilter.Base.{
  ℕ, ◌+◌, ◌%◌, ◌^◌, not, ◌&&◌, Option, none, some, List, [], ◌∷◌, ◌++◌, ◌==◌, if◌then◌else◌, length,
  get_or, drop, Bytes, codes, ℤ, pos, eq_ℤ, printf_s, show_ℕ,
}
use spmfilter.Settings.{Settings}
use spmfilter.Settings.Facility.{strcasecmp_eq}
use spmfilter.Settings.Strtol.{as_ulong}

-- `while(e != NULL)`, from the element whose number is `count`.
unfoldable pub host_loop : ℕ → ℕ → List Bytes → Option Bytes
host_loop random count [] = none
host_loop random count (h ∷ hs) =
    let later = host_loop random (count + 1) hs in if count + 1 == random then later else some h

-- None where the program stops, dividing by 0.
unfoldable pub get_rand_host : ℕ → List Bytes → Option (Option Bytes)
get_rand_host random [] = none
get_rand_host random (h ∷ hs) = some (host_loop (random % length (h ∷ hs)) 0 (h ∷ hs))

-- What is printed for the host; none where the program stops, in `strcasecmp` for NULL too.
unfoldable pub dsn_host : ℕ → Settings → Bytes → Option Bytes → Option Bytes
unfolding codes
dsn_host random st driver (some host) = some host
dsn_host random st driver none = elim st.backend_connection [
  | none ↦ none
  | some kind ↦
      if strcasecmp_eq kind (codes "balance") && not (strcasecmp_eq driver (codes "sqlite"))
      then elim (get_rand_host random st.sql_host) [ none ↦ none | some h ↦ some (printf_s h) ]
      else if not (strcasecmp_eq driver (codes "sqlite"))
      then elim st.sql_host [ [] ↦ none | h ∷ hs ↦ some h ]
      else some []
]

unfoldable pub dsn_port : ℤ → Bytes
dsn_port port = if eq_ℤ port (pos 0) then [] else b':' ∷ show_ℕ (as_ulong port % 2 ^ 32)

-- `~` in front of a name of an SQLite database stands for HOME.
unfoldable pub expand_home : Option Bytes → Bytes → Bytes
expand_home home name = if get_or name 0 0 == b'~' then printf_s home ++ drop 1 name else name

-- The name as it is stored, and what is printed for it.
unfoldable pub dsn_name : Option Bytes → Bytes → Option Bytes → Option Bytes × Bytes
unfolding codes
dsn_name home driver none = (none, [])
dsn_name home driver (some name) =
    let name' = expand_home home name in
    if strcasecmp_eq driver (codes "sqlite") then (some name', name') else (some name, b'/' ∷ name)

-- A text that is set and not empty, behind its label.
unfoldable pub labelled : Bytes → Option Bytes → Bytes
labelled label none = []
labelled label (some []) = []
labelled label (some (c ∷ cs)) = label ++ (c ∷ cs)

unfoldable pub dsn_user : Settings → Bytes → Bytes
unfolding codes
dsn_user st driver = elim (labelled (codes "?user=") st.sql_user) [
  | [] ↦ []
  | c ∷ cs ↦
      (c ∷ cs)
      ++ (labelled (codes "&password=") st.sql_pass
          ++ (if strcasecmp_eq driver (codes "mysql")
              then labelled (codes "&charset=") st.sql_encoding
              else []))
]

-- The settings, in which the name may change, and the text; none for NULL.
pub data Dsn : Type 0 where
  crashed : Dsn
  no_dsn : Dsn
  dsn : Settings → Bytes → Dsn

unfoldable pub get_dsn : ℕ → Option Bytes → Settings → Option Bytes → Dsn
unfolding codes
get_dsn random home st host = elim st.sql_driver [
  | none ↦ no_dsn
  | some driver ↦ elim (dsn_host random st driver host) [
    | none ↦ crashed
    | some shown ↦
        let (stored, name) = dsn_name home driver st.sql_name in
        dsn (record st { sql_name = stored })
          (driver
            ++ (codes "://" ++ (shown ++ (dsn_port st.sql_port ++ (name ++ dsn_user st driver)))))
  ]
]
