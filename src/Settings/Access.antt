-- ===== src/Settings/Access.antt =====
-- The functions of src/smf_settings.c that set one entry of the configuration. A string that was
-- there is freed; what the file system says of a path is an argument.
use spmfilter.Base.{
  ℕ, Bool, not, ◌||◌, some, [], ◌∷◌, ◌++◌, if◌then◌else◌, Bytes, ℤ, pos, minus_one, minus_two, eq_ℤ,
}
use spmfilter.Settings.{Settings}

-- `smf_settings_add_module`; what the module loads is kept apart.
unfoldable pub add_module : Settings → Bytes → Settings
add_module st name = record st { modules = st.modules ++ name ∷ [] }

unfoldable pub set_engine : Settings → Bytes → Settings
set_engine st engine = record st { engine = some engine }

unfoldable pub set_nexthop : Settings → Bytes → Settings
set_nexthop st nexthop = record st { nexthop = some nexthop }

unfoldable pub set_module_fail : Settings → ℤ → Settings
set_module_fail st value = record st { module_fail = value }

unfoldable pub set_nexthop_fail_code : Settings → ℤ → Settings
set_nexthop_fail_code st value = record st { nexthop_fail_code = value }

unfoldable pub set_nexthop_fail_msg : Settings → Bytes → Settings
set_nexthop_fail_msg st msg = record st { nexthop_fail_msg = some msg }

unfoldable pub set_backend : Settings → Bytes → Settings
set_backend st backend = record st { backend = some backend }

unfoldable pub set_backend_connection : Settings → Bytes → Settings
set_backend_connection st conn = record st { backend_connection = some conn }

unfoldable pub set_add_header : Settings → ℤ → Settings
set_add_header st value = record st { add_header = value }

unfoldable pub set_max_size : Settings → ℕ → Settings
set_max_size st size = record st { max_size = size }

unfoldable pub set_tls : Settings → ℤ → Settings
set_tls st t = record st { tls = t }

unfoldable pub set_lib_dir : Settings → Bytes → Settings
set_lib_dir st lib_dir = record st { lib_dir = some lib_dir }

unfoldable pub set_pid_file : Settings → Bytes → Settings
set_pid_file st pid_file = record st { pid_file = some pid_file }

unfoldable pub set_bind_ip : Settings → Bytes → Settings
set_bind_ip st ip = record st { bind_ip = some ip }

unfoldable pub set_bind_port : Settings → ℤ → Settings
set_bind_port st port = record st { bind_port = port }

unfoldable pub set_listen_backlog : Settings → ℤ → Settings
set_listen_backlog st backlog = record st { listen_backlog = backlog }

unfoldable pub set_foreground : Settings → ℤ → Settings
set_foreground st foreground = record st { foreground = foreground }

unfoldable pub set_user : Settings → Bytes → Settings
set_user st user = record st { user = some user }

unfoldable pub set_group : Settings → Bytes → Settings
set_group st group = record st { group = some group }

unfoldable pub set_max_childs : Settings → ℤ → Settings
set_max_childs st max_childs = record st { max_childs = max_childs }

unfoldable pub set_spare_childs : Settings → ℤ → Settings
set_spare_childs st spare_childs = record st { spare_childs = spare_childs }

unfoldable pub set_smtpd_timeout : Settings → ℤ → Settings
set_smtpd_timeout st timeout = record st { smtpd_timeout = timeout }

unfoldable pub set_sql_driver : Settings → Bytes → Settings
set_sql_driver st driver = record st { sql_driver = some driver }

unfoldable pub set_sql_name : Settings → Bytes → Settings
set_sql_name st name = record st { sql_name = some name }

unfoldable pub add_sql_host : Settings → Bytes → Settings
add_sql_host st host = record st { sql_host = st.sql_host ++ host ∷ [] }

unfoldable pub set_sql_port : Settings → ℤ → Settings
set_sql_port st port = record st { sql_port = port }

unfoldable pub set_sql_user : Settings → Bytes → Settings
set_sql_user st user = record st { sql_user = some user }

unfoldable pub set_sql_pass : Settings → Bytes → Settings
set_sql_pass st pass = record st { sql_pass = some pass }

unfoldable pub set_sql_user_query : Settings → Bytes → Settings
set_sql_user_query st query = record st { sql_user_query = some query }

unfoldable pub set_sql_encoding : Settings → Bytes → Settings
set_sql_encoding st encoding = record st { sql_encoding = some encoding }

unfoldable pub set_sql_max_connections : Settings → ℤ → Settings
set_sql_max_connections st value = record st { sql_max_connections = value }

unfoldable pub set_ldap_uri : Settings → Bytes → Settings
set_ldap_uri st uri = record st { ldap_uri = some uri }

unfoldable pub add_ldap_host : Settings → Bytes → Settings
add_ldap_host st host = record st { ldap_host = st.ldap_host ++ host ∷ [] }

unfoldable pub set_ldap_port : Settings → ℤ → Settings
set_ldap_port st port = record st { ldap_port = port }

unfoldable pub set_ldap_binddn : Settings → Bytes → Settings
set_ldap_binddn st binddn = record st { ldap_binddn = some binddn }

unfoldable pub set_ldap_bindpw : Settings → Bytes → Settings
set_ldap_bindpw st bindpw = record st { ldap_bindpw = some bindpw }

unfoldable pub set_ldap_base : Settings → Bytes → Settings
set_ldap_base st base = record st { ldap_base = some base }

unfoldable pub set_ldap_referrals : Settings → ℤ → Settings
set_ldap_referrals st value = record st { ldap_referrals = value }

unfoldable pub set_ldap_scope : Settings → Bytes → Settings
set_ldap_scope st scope = record st { ldap_scope = some scope }

unfoldable pub set_ldap_user_query : Settings → Bytes → Settings
set_ldap_user_query st query = record st { ldap_user_query = some query }

unfoldable pub add_ldap_result_attribute : Settings → Bytes → Settings
add_ldap_result_attribute st attribute = record st {
  ldap_result_attributes = st.ldap_result_attributes ++ attribute ∷ [];
}

unfoldable pub set_lookup_persistent : Settings → ℤ → Settings
set_lookup_persistent st persistent = record st { lookup_persistent = persistent }

-- `smf_settings_set_debug`: the return value and the settings.
unfoldable pub set_debug : Settings → ℤ → ℤ × Settings
set_debug st debug =
    if eq_ℤ debug (pos 0) || eq_ℤ debug (pos 1)
    then (pos 0, record st { debug = debug })
    else (minus_one, st)

-- `smf_settings_set_config_file`; the flag is `stat(cf, &sb) == 0`.
unfoldable pub set_config_file : Bool → Settings → Bytes → ℤ × Settings
set_config_file exists st cf =
    if exists then (pos 0, record st { config_file = some cf }) else (minus_one, st)

-- What `stat` and `access` say of a path.
pub record PathState : Type 0 where
  pub exists : Bool
  pub is_dir : Bool
  pub writable : Bool

-- `smf_settings_set_queue_dir`
unfoldable pub set_queue_dir : PathState → Settings → Bytes → ℤ × Settings
set_queue_dir path st qd =
    if not path.exists
    then (minus_one, st)
    else if not path.is_dir
    then (minus_two, st)
    else if not path.writable
    then (minus_one, st)
    else (pos 0, record st { queue_dir = some qd })
