-- ===== src/Settings/Check.antt =====
-- The checks at the end of `smf_settings_parse_config` of src/smf_settings.c, and the whole of it.
use spmfilter.Base.{
  lt_ℤ, ℕ, ◌+◌, Bool, true, false, not, ◌&&◌, ◌||◌, Option, none, some, List, [], ◌∷◌,
  if◌then◌else◌, length, Bytes, codes, equal, ℤ, pos, minus_one, eq_ℤ,
}
use spmfilter.Settings.{Settings}
use spmfilter.Settings.Parse.{parser_new, done, undefined, running, Outcome, parse_lines}

abbrev pub child_limit : ℕ
child_limit = 1024

abbrev pub is_some : Option Bytes → Bool
is_some none = false
is_some (some _) = true

-- What a NULL string is set to.
abbrev pub default : Bytes → Option Bytes → Option Bytes
default d none = some d
default d (some s) = some s

-- strcmp with a text that is not NULL
unfoldable pub is_text : Bytes → Option Bytes → Bool
is_text s none = false
is_text s (some t) = equal t s

abbrev pub is_empty : List Bytes → Bool
is_empty [] = true
is_empty (_ ∷ _) = false

unfoldable pub default_port : Bytes → ℕ → Settings → Settings
default_port driver port st =
    if is_text driver st.sql_driver && eq_ℤ st.sql_port (pos 0)
    then record st { sql_port = pos port }
    else st

-- The return code -1, or 0 where the checks go on.
unfoldable pub sql_checks : Settings → ℤ × Settings
unfolding codes
sql_checks st =
    if not (is_some st.sql_driver)
    then (minus_one, st)
    else if not (is_some st.sql_name)
    then (minus_one, st)
    else if (is_text (codes "mysql") st.sql_driver || is_text (codes "postgresql") st.sql_driver)
        && is_empty st.sql_host
    then (minus_one, st)
    else (pos 0, default_port (codes "postgresql") 5432 (default_port (codes "mysql") 3306 st))

unfoldable pub is_scope : Option Bytes → Bool
unfolding codes
is_scope s =
    is_text (codes "base") s || (is_text (codes "onlevel") s || is_text (codes "subtree") s)

unfoldable pub ldap_checks : Settings → ℤ × Settings
unfolding codes
ldap_checks st =
    let st1 = record st {
      ldap_port = if eq_ℤ st.ldap_port (pos 0) then pos 389 else st.ldap_port;
      ldap_base = default [] st.ldap_base;
    } in
    if not (is_some st.ldap_scope)
    then (pos 0, record st1 { ldap_scope = some (codes "subtree") })
    else if is_scope st.ldap_scope
    then (pos 0, st1)
    else (minus_one, st1)

unfoldable pub backend_checks : Settings → ℤ × Settings
unfolding codes
backend_checks st =
    let (r, st1) = if is_text (codes "sql") st.backend then sql_checks st else (pos 0, st) in
    if eq_ℤ r (pos 0)
    then (if is_text (codes "ldap") st1.backend then ldap_checks st1 else (pos 0, st1))
    else (r, st1)

unfoldable pub check_config : Settings → ℤ × Settings
unfolding codes
check_config st =
    let st1 = record st { queue_dir = default (codes "/var/spool/spmfilter") st.queue_dir } in
    if not (is_some st1.engine)
    then (minus_one, st1)
    else if lt_ℤ (pos child_limit) st1.max_childs
    then (minus_one, st1)
    else let (r, st2) =
        backend_checks
          (record st1 { backend_connection = default (codes "failover") st1.backend_connection }) in
      if eq_ℤ r (pos 0)
      then (
        pos 0,
        record st2 {
          nexthop_fail_msg =
              default (codes "Requested action aborted: local error in processing")
                st2.nexthop_fail_msg;
        },
      )
      else (r, st2)

-- None where C says nothing of what the program does.
unfoldable pub finish_config : Outcome → Option (ℤ × Settings)
finish_config (done p) = some (check_config p.settings)
finish_config undefined = none
finish_config running = none

-- For what the file holds, if it can be opened.
unfoldable pub parse_file : Settings → Option Bytes → Option (ℤ × Settings)
parse_file st none = some (minus_one, st)
parse_file st (some s) = finish_config (parse_lines (length s + 1) (parser_new st) s)

unfoldable pub config_path : Option Bytes → Bytes
unfolding codes
config_path none = codes "/etc/spmfilter.conf"
config_path (some alternate_file) = alternate_file

-- `contents` gives the bytes of a file.
module _ (contents : Bytes → Option Bytes) where
  unfoldable pub parse_config : Settings → Option Bytes → Option (ℤ × Settings)
  parse_config st alternate_file =
      let file = config_path alternate_file in
      parse_file (record st { config_file = some file }) (contents file)
