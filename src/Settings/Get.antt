-- ===== src/Settings/Get.antt =====
-- The functions of src/smf_settings.c that return one entry of the configuration.
use spmfilter.Base.{ℕ, Option, List, Bytes, ℤ}
use spmfilter.Settings.{Settings}

unfoldable pub get_debug : Settings → ℤ
get_debug st = st.debug

unfoldable pub get_config_file : Settings → Option Bytes
get_config_file st = st.config_file

unfoldable pub get_queue_dir : Settings → Option Bytes
get_queue_dir st = st.queue_dir

unfoldable pub get_engine : Settings → Option Bytes
get_engine st = st.engine

unfoldable pub get_modules : Settings → List Bytes
get_modules st = st.modules

unfoldable pub get_nexthop : Settings → Option Bytes
get_nexthop st = st.nexthop

unfoldable pub get_module_fail : Settings → ℤ
get_module_fail st = st.module_fail

unfoldable pub get_nexthop_fail_code : Settings → ℤ
get_nexthop_fail_code st = st.nexthop_fail_code

unfoldable pub get_nexthop_fail_msg : Settings → Option Bytes
get_nexthop_fail_msg st = st.nexthop_fail_msg

unfoldable pub get_backend : Settings → Option Bytes
get_backend st = st.backend

unfoldable pub get_backend_connection : Settings → Option Bytes
get_backend_connection st = st.backend_connection

unfoldable pub get_add_header : Settings → ℤ
get_add_header st = st.add_header

unfoldable pub get_max_size : Settings → ℕ
get_max_size st = st.max_size

unfoldable pub get_tls : Settings → ℤ
get_tls st = st.tls

unfoldable pub get_lib_dir : Settings → Option Bytes
get_lib_dir st = st.lib_dir

unfoldable pub get_pid_file : Settings → Option Bytes
get_pid_file st = st.pid_file

unfoldable pub get_bind_ip : Settings → Option Bytes
get_bind_ip st = st.bind_ip

unfoldable pub get_bind_port : Settings → ℤ
get_bind_port st = st.bind_port

unfoldable pub get_listen_backlog : Settings → ℤ
get_listen_backlog st = st.listen_backlog

unfoldable pub get_foreground : Settings → ℤ
get_foreground st = st.foreground

unfoldable pub get_user : Settings → Option Bytes
get_user st = st.user

unfoldable pub get_group : Settings → Option Bytes
get_group st = st.group

unfoldable pub get_max_childs : Settings → ℤ
get_max_childs st = st.max_childs

unfoldable pub get_spare_childs : Settings → ℤ
get_spare_childs st = st.spare_childs

unfoldable pub get_syslog_facility : Settings → ℤ
get_syslog_facility st = st.syslog_facility

unfoldable pub get_smtpd_timeout : Settings → ℤ
get_smtpd_timeout st = st.smtpd_timeout

unfoldable pub get_sql_driver : Settings → Option Bytes
get_sql_driver st = st.sql_driver

unfoldable pub get_sql_name : Settings → Option Bytes
get_sql_name st = st.sql_name

unfoldable pub get_sql_hosts : Settings → List Bytes
get_sql_hosts st = st.sql_host

unfoldable pub get_sql_port : Settings → ℤ
get_sql_port st = st.sql_port

unfoldable pub get_sql_user : Settings → Option Bytes
get_sql_user st = st.sql_user

unfoldable pub get_sql_pass : Settings → Option Bytes
get_sql_pass st = st.sql_pass

unfoldable pub get_sql_user_query : Settings → Option Bytes
get_sql_user_query st = st.sql_user_query

unfoldable pub get_sql_encoding : Settings → Option Bytes
get_sql_encoding st = st.sql_encoding

unfoldable pub get_sql_max_connections : Settings → ℤ
get_sql_max_connections st = st.sql_max_connections

unfoldable pub get_ldap_uri : Settings → Option Bytes
get_ldap_uri st = st.ldap_uri

unfoldable pub get_ldap_hosts : Settings → List Bytes
get_ldap_hosts st = st.ldap_host

unfoldable pub get_ldap_port : Settings → ℤ
get_ldap_port st = st.ldap_port

unfoldable pub get_ldap_binddn : Settings → Option Bytes
get_ldap_binddn st = st.ldap_binddn

unfoldable pub get_ldap_bindpw : Settings → Option Bytes
get_ldap_bindpw st = st.ldap_bindpw

unfoldable pub get_ldap_base : Settings → Option Bytes
get_ldap_base st = st.ldap_base

unfoldable pub get_ldap_referrals : Settings → ℤ
get_ldap_referrals st = st.ldap_referrals

unfoldable pub get_ldap_scope : Settings → Option Bytes
get_ldap_scope st = st.ldap_scope

unfoldable pub get_ldap_user_query : Settings → Option Bytes
get_ldap_user_query st = st.ldap_user_query

unfoldable pub get_ldap_result_attributes : Settings → List Bytes
get_ldap_result_attributes st = st.ldap_result_attributes

unfoldable pub get_lookup_persistent : Settings → ℤ
get_lookup_persistent st = st.lookup_persistent
