-- ===== src/Settings/Values.antt =====
-- `_set_config_value` of src/smf_settings.c: the keys of each section are compared in turn, as the
-- tables list them. A module is kept by its name, since `smf_module_create` makes one for any name; a
-- list that is set anew starts empty.
use spmfilter.Base.{
  lt_ℤ, Bool, not, ◌&&◌, ◌||◌, Option, none, some, List, [], ◌∷◌, map, if◌then◌else◌, Bytes, codes,
  equal, ℤ, pos, eq_ℤ,
}
use spmfilter.Core.Strip.{strstrip}
use spmfilter.Dict
use spmfilter.Settings.{Settings}
use spmfilter.Settings.Codes.{get_boolean, get_list, group_key}
use spmfilter.Settings.Facility.{set_syslog_facility}
use spmfilter.Settings.Strtol.{get_integer, as_ulong}

-- None where the field is left with a pointer to memory that is freed, and the program goes on with
-- it, of which C says nothing.
abbrev pub Setter : Type 0
Setter = Settings → Bytes → Option Settings

abbrev pub Keys : Type 0
Keys = List (Bytes × Setter)

abbrev pub sets : (Settings → Bytes → Settings) → Setter
sets f st v = some (f st v)

abbrev pub boolean : Bytes → ℤ
boolean v = if get_boolean v then pos 1 else pos 0

unfoldable pub config_module_fail : Settings → Bytes → Settings
config_module_fail st v =
    let i = get_integer v in
    if eq_ℤ i (pos 1) || (eq_ℤ i (pos 2) || eq_ℤ i (pos 3))
    then record st { module_fail = i }
    else st

unfoldable pub config_tls : Settings → Bytes → Settings
config_tls st v =
    let i = get_integer v in
    if eq_ℤ i (pos 0) || (eq_ℤ i (pos 1) || eq_ℤ i (pos 2)) then record st { tls = i } else st

-- The old text is freed before the new one is compared, and the field keeps pointing to it if the new
-- one is not allowed.
abbrev pub freed : Option Bytes → Settings → Option Settings
freed none st = some st
freed (some _) st = none

unfoldable pub known_backend : Bytes → Bool
unfolding codes
known_backend v = equal v (codes "sql") || equal v (codes "ldap")

unfoldable pub config_backend : Setter
config_backend st v =
    if known_backend v then some (record st { backend = some v }) else freed st.backend st

unfoldable pub known_connection : Bytes → Bool
unfolding codes
known_connection v = equal v (codes "balance") || equal v (codes "failover")

unfoldable pub config_backend_connection : Setter
config_backend_connection st v =
    if known_connection v
    then some (record st { backend_connection = some v })
    else freed st.backend_connection st

unfoldable pub known_driver : Bytes → Bool
unfolding codes
known_driver v =
    equal v (codes "mysql") || (equal v (codes "postgresql") || equal v (codes "sqlite"))

unfoldable pub config_sql_driver : Setter
config_sql_driver st v =
    if known_driver v then some (record st { sql_driver = some v }) else freed st.sql_driver st

-- The section global.
unfoldable pub global_keys : Keys
unfolding codes
global_keys =
    (codes "debug", sets λ st v. record st { debug = boolean v })
    ∷ (codes "queue_dir", sets λ st v. record st { queue_dir = some v })
    ∷ (codes "modules", sets λ st v. record st { modules = map strstrip (get_list v) })
    ∷ (codes "engine", sets λ st v. record st { engine = some v })
    ∷ (codes "module_fail", sets config_module_fail)
    ∷ (codes "nexthop", sets λ st v. record st { nexthop = some v })
    ∷ (codes "backend", config_backend)
    ∷ (codes "backend_connection", config_backend_connection)
    ∷ (codes "add_header", sets λ st v. record st { add_header = boolean v })
    ∷ (codes "max_size", sets λ st v. record st { max_size = as_ulong (get_integer v) })
    ∷ (codes "tls_enable", sets config_tls)
    ∷ (codes "lib_dir", sets λ st v. record st { lib_dir = some v })
    ∷ (codes "pid_file", sets λ st v. record st { pid_file = some v })
    ∷ (codes "bind_ip", sets λ st v. record st { bind_ip = some v })
    ∷ (codes "bind_port", sets λ st v. record st { bind_port = get_integer v })
    ∷ (codes "listen_backlog", sets λ st v. record st { listen_backlog = get_integer v })
    ∷ (codes "foreground", sets λ st v. record st { foreground = boolean v })
    ∷ (codes "user", sets λ st v. record st { user = some v })
    ∷ (codes "group", sets λ st v. record st { group = some v })
    ∷ (codes "max_childs", sets λ st v. record st { max_childs = get_integer v })
    ∷ (codes "spare_childs", sets λ st v. record st { spare_childs = get_integer v })
    ∷ (codes "lookup_persistent", sets λ st v. record st { lookup_persistent = boolean v })
    ∷ (codes "syslog_facility", sets set_syslog_facility)
    ∷ []

-- The section sql.
unfoldable pub sql_keys : Keys
unfolding codes
sql_keys =
    (codes "driver", config_sql_driver)
    ∷ (codes "name", sets λ st v. record st { sql_name = some v })
    ∷ (codes "host", sets λ st v. record st { sql_host = map strstrip (get_list v) })
    ∷ (codes "user", sets λ st v. record st { sql_user = some v })
    ∷ (codes "pass", sets λ st v. record st { sql_pass = some v })
    ∷ (codes "user_query", sets λ st v. record st { sql_user_query = some v })
    ∷ (codes "encoding", sets λ st v. record st { sql_encoding = some v })
    ∷ (codes "max_connections", sets λ st v. record st { sql_max_connections = get_integer v })
    ∷ (codes "port", sets λ st v. record st { sql_port = get_integer v })
    ∷ []

-- The section ldap.
unfoldable pub ldap_keys : Keys
unfolding codes
ldap_keys =
    (codes "uri", sets λ st v. record st { ldap_uri = some v })
    ∷ (codes "host", sets λ st v. record st { ldap_host = map strstrip (get_list v) })
    ∷ (codes "port", sets λ st v. record st { ldap_port = get_integer v })
    ∷ (codes "binddn", sets λ st v. record st { ldap_binddn = some v })
    ∷ (codes "bindpw", sets λ st v. record st { ldap_bindpw = some v })
    ∷ (codes "base", sets λ st v. record st { ldap_base = some v })
    ∷ (codes "user_query", sets λ st v. record st { ldap_user_query = some v })
    ∷ (
      codes "result_attributes",
      sets λ st v. record st { ldap_result_attributes = map strstrip (get_list v) },
    )
    ∷ (codes "scope", sets λ st v. record st { ldap_scope = some v })
    ∷ (codes "referrals", sets λ st v. record st { ldap_referrals = boolean v })
    ∷ []

-- The section smtpd, without the reply codes.
unfoldable pub smtpd_keys : Keys
unfolding codes
smtpd_keys =
    (codes "nexthop_fail_msg", sets λ st v. record st { nexthop_fail_msg = some v })
    ∷ (codes "nexthop_fail_code", sets λ st v. record st { nexthop_fail_code = get_integer v })
    ∷ (codes "smtpd_timeout", sets λ st v. record st { smtpd_timeout = get_integer v })
    ∷ []

-- A key that the table does not have is left to `other`.
unfoldable pub set_key : Setter → Keys → Settings → Bytes → Bytes → Option Settings
set_key other [] st key v = other st v
set_key other ((name, f) ∷ rest) st key v =
    let later = set_key other rest st key v in if equal key name then f st v else later

unfoldable pub no_key : Setter
no_key st v = some st

-- The text is stored under the key as it is written.
unfoldable pub config_code : Bytes → Setter
config_code key st v =
    let i = get_integer key in
    if not (lt_ℤ i (pos 250)) && lt_ℤ i (pos 600)
    then some (record st { smtp_codes = Dict.dict_set st.smtp_codes key v })
    else some st

unfoldable pub config_group : Bytes → Bytes → Setter
config_group section key st v =
    some (record st { groups = Dict.dict_set st.groups (group_key section key) v })

unfoldable pub set_config_value : Settings → Bytes → Bytes → Bytes → Option Settings
unfolding codes no_key
set_config_value st section key [] = some st
set_config_value st section key (c ∷ cs) =
    let v = c ∷ cs in
    if equal section (codes "global")
    then set_key no_key global_keys st key v
    else if equal section (codes "sql")
    then set_key no_key sql_keys st key v
    else if equal section (codes "ldap")
    then set_key no_key ldap_keys st key v
    else if equal section (codes "smtpd")
    then set_key (config_code key) smtpd_keys st key v
    else config_group section key st v
