-- ===== src/Settings.antt =====
-- src/smf_settings.c: the configuration. A C int is an integer, a NULL string is `none`. A module of
-- `modules` is kept by its name; what the name loads is a parameter of the queue.
pub mod Codes
pub mod Access
pub mod Get
pub mod Facility
pub mod Strtol
pub mod Line
pub mod Values
pub mod Parse
pub mod Check
pub mod Ends
pub mod Backend
pub mod Checked
pub mod Sane
pub mod Kept
pub mod Printed
use spmfilter.Base.{ℕ, [], List, Option, none, Bytes, ℤ, pos}
use spmfilter.Dict
use spmfilter.Dict.{Dict}

pub record Settings : Type 0 where
  pub debug : ℤ
  pub config_file : Option Bytes
  pub queue_dir : Option Bytes
  pub engine : Option Bytes
  pub modules : List Bytes
  pub module_fail : ℤ
  pub nexthop : Option Bytes
  pub nexthop_fail_code : ℤ
  pub nexthop_fail_msg : Option Bytes
  pub backend : Option Bytes
  pub backend_connection : Option Bytes
  pub add_header : ℤ
  pub max_size : ℕ
  pub tls : ℤ
  pub lib_dir : Option Bytes
  pub pid_file : Option Bytes
  pub bind_ip : Option Bytes
  pub bind_port : ℤ
  pub listen_backlog : ℤ
  pub foreground : ℤ
  pub user : Option Bytes
  pub group : Option Bytes
  pub max_childs : ℤ
  pub spare_childs : ℤ
  pub syslog_facility : ℤ
  pub smtp_codes : Dict
  pub smtpd_timeout : ℤ
  pub sql_driver : Option Bytes
  pub sql_name : Option Bytes
  pub sql_host : List Bytes
  pub sql_port : ℤ
  pub sql_user : Option Bytes
  pub sql_pass : Option Bytes
  pub sql_user_query : Option Bytes
  pub sql_encoding : Option Bytes
  pub sql_max_connections : ℤ
  pub ldap_uri : Option Bytes
  pub ldap_host : List Bytes
  pub ldap_port : ℤ
  pub ldap_binddn : Option Bytes
  pub ldap_bindpw : Option Bytes
  pub ldap_base : Option Bytes
  pub ldap_referrals : ℤ
  pub ldap_scope : Option Bytes
  pub ldap_user_query : Option Bytes
  pub ldap_result_attributes : List Bytes
  pub lookup_persistent : ℤ
  pub groups : Dict

-- `smf_settings_new`; the facility is LOG_MAIL, 2 << 3.
unfoldable pub settings_new : Settings
settings_new = record {
  debug = pos 0;
  config_file = none;
  queue_dir = none;
  engine = none;
  modules = [];
  module_fail = pos 3;
  nexthop = none;
  nexthop_fail_code = pos 451;
  nexthop_fail_msg = none;
  backend = none;
  backend_connection = none;
  add_header = pos 1;
  max_size = 0;
  tls = pos 0;
  lib_dir = none;
  pid_file = none;
  bind_ip = none;
  bind_port = pos 10025;
  listen_backlog = pos 511;
  foreground = pos 0;
  user = none;
  group = none;
  max_childs = pos 10;
  spare_childs = pos 2;
  syslog_facility = pos 16;
  smtp_codes = Dict.new;
  smtpd_timeout = pos 300;
  sql_driver = none;
  sql_name = none;
  sql_host = [];
  sql_port = pos 0;
  sql_user = none;
  sql_pass = none;
  sql_user_query = none;
  sql_encoding = none;
  sql_max_connections = pos 3;
  ldap_uri = none;
  ldap_host = [];
  ldap_port = pos 0;
  ldap_binddn = none;
  ldap_bindpw = none;
  ldap_base = none;
  ldap_referrals = pos 0;
  ldap_scope = none;
  ldap_user_query = none;
  ldap_result_attributes = [];
  lookup_persistent = pos 0;
  groups = Dict.new;
}
