-- ===== src/Settings/Checked.antt =====
-- What the checks of `smf_settings_parse_config` let through.
use spmfilter.Base.{
  lt_ℤ, ◌+◌, ◌≡◌, refl, inl, inr, true, false, not, Option, none, some, arith, if◌then◌else◌,
  Bool-cases, length, Bytes, codes, ℤ, pos, minus_one, eq_ℤ, eq_ℤ_iff,
}
use spmfilter.Settings.{Settings}
use mathlib.Core.Path.{subst}
use mathlib.Core.Option.{some_inj}
use spmfilter.Settings.Parse.{parser_new, done, undefined, running, Outcome, parse_lines}
use spmfilter.Settings.Check.{
  child_limit, is_some, is_text, default, sql_checks, ldap_checks, backend_checks, check_config,
  finish_config, parse_file, config_path, parse_config,
}
use spmfilter.Settings.Backend.{
  networked, PassesTo, SqlNamed, LdapScoped, Keeps, Keeps-refl, sql_checks-Keeps,
  sql_checks-SqlNamed, ldap_checks-LdapScoped, ldap_checks-keep, default_set,
}

-- The settings that a server starts with.
pub record IsChecked (st : Settings) : Type 0 where
  pub engine_set : is_some st.engine ≡ true
  pub childs_limited : lt_ℤ (pos child_limit) st.max_childs ≡ false
  pub queue_dir_set : is_some st.queue_dir ≡ true
  pub connection_set : is_some st.backend_connection ≡ true
  pub fail_msg_set : is_some st.nexthop_fail_msg ≡ true
  pub sql_named : is_text (codes "sql") st.backend ≡ true → SqlNamed st
  pub ldap_scoped : is_text (codes "ldap") st.backend ≡ true → LdapScoped st

record BackendChecked (st st' : Settings) : Type 0 where
  pub keeps : Keeps st st'
  pub sql : is_text (codes "sql") st'.backend ≡ true → SqlNamed st'
  pub ldap : is_text (codes "ldap") st'.backend ≡ true → LdapScoped st'

sql_stage :
    (st : Settings)
    → let r = if is_text (codes "sql") st.backend then sql_checks st else (pos 0, st) in
      (Keeps st r.1) × (r.0 ≡ pos 0 → is_text (codes "sql") r.1.backend ≡ true → SqlNamed r.1)
unfolding PassesTo
sql_stage st = elim (Bool-cases (is_text (codes "sql") st.backend)) [
  | inl y ↦ rw y (sql_checks-Keeps st, λ e _. sql_checks-SqlNamed st e)
  | inr n ↦ rw n (Keeps-refl st, λ e w. absurd (cc))
]

ldap_stage :
    (st s : Settings)
    → Keeps st s
    → (is_text (codes "sql") s.backend ≡ true → SqlNamed s)
    → PassesTo
        (BackendChecked st)
        (if is_text (codes "ldap") s.backend then ldap_checks s else (pos 0, s))
unfolding PassesTo SqlNamed networked
ldap_stage st s k h = elim (Bool-cases (is_text (codes "ldap") s.backend)) [
  | inl y ↦ rw y λ e. record {
    keeps =
        ldap_checks-keep (λ t. Keeps st t) s
          (λ _ _ _. record {
            engine_kept = k.engine_kept;
            childs_kept = k.childs_kept;
            queue_dir_kept = k.queue_dir_kept;
            connection_kept = k.connection_kept;
            backend_kept = k.backend_kept;
          });
    sql =
        ldap_checks-keep (λ t. is_text (codes "sql") t.backend ≡ true → SqlNamed t) s
          (λ _ _ _ w. h w);
    ldap = λ _. ldap_checks-LdapScoped s e;
  }
  | inr n ↦ rw n λ e. record { keeps = k; sql = h; ldap = λ w. absurd (cc) }
]

backend_checks-BackendChecked : (st : Settings) → PassesTo (BackendChecked st) (backend_checks st)
unfolding backend_checks PassesTo
backend_checks-BackendChecked st =
    let r : ℤ × Settings =
      if is_text (codes "sql") st.backend then sql_checks st else (pos 0, st) in
    let (k, h) = sql_stage st in
    elim (Bool-cases (eq_ℤ r.0 (pos 0))) [
      | inl y ↦ rw y (ldap_stage st r.1 k (h ((eq_ℤ_iff r.0 (pos 0)).0 y)))
      | inr n ↦ rw n λ e. absurd (ground (arith, (eq_ℤ_iff r.0 (pos 0)).1 e))
    ]

passed-IsChecked :
    (st t : Settings) (msg : Bytes)
    → is_some st.engine ≡ true
    → lt_ℤ (pos child_limit) st.max_childs ≡ false
    → is_some st.queue_dir ≡ true
    → is_some st.backend_connection ≡ true
    → BackendChecked st t
    → IsChecked (record t { nexthop_fail_msg = default msg t.nexthop_fail_msg })
unfolding SqlNamed LdapScoped networked
passed-IsChecked st t msg e c q b k = record {
  engine_set = rw k.keeps.engine_kept e;
  childs_limited = rw k.keeps.childs_kept c;
  queue_dir_set = rw k.keeps.queue_dir_kept q;
  connection_set = rw k.keeps.connection_kept b;
  fail_msg_set = default_set msg t.nexthop_fail_msg;
  sql_named = k.sql;
  ldap_scoped = k.ldap;
}

check_config-PassesTo : (st : Settings) → PassesTo IsChecked (check_config st)
unfolding check_config PassesTo codes
check_config-PassesTo st =
    let st1 = record st { queue_dir = default (codes "/var/spool/spmfilter") st.queue_dir } in
    let st2 = record st1 {
      backend_connection = default (codes "failover") st1.backend_connection;
    } in
    let r = backend_checks st2 in
    let b = backend_checks-BackendChecked st2 in
    elim (Bool-cases (not (is_some st.engine))) [
      | inl y ↦ rw y λ e. absurd (cc)
      | inr n ↦ elim (Bool-cases (lt_ℤ (pos child_limit) st.max_childs)) [
        | inl y ↦ rw (n, y) λ e. absurd (cc)
        | inr m ↦ elim (Bool-cases (eq_ℤ r.0 (pos 0))) [
          | inl y ↦
              rw (n, m, y)
                λ e.
                  passed-IsChecked st2 r.1
                    (codes "Requested action aborted: local error in processing") (ground arith) m
                    (default_set _ st.queue_dir) (default_set _ st.backend_connection)
                    (b ((eq_ℤ_iff r.0 (pos 0)).0 y))
          | inr z ↦ rw (n, m, z) λ e. absurd (ground (arith, (eq_ℤ_iff r.0 (pos 0)).1 e))
        ]
      ]
    ]

pub finish_config-checks :
    (P : ℤ × Settings → Type 0) (o : Outcome) (r : ℤ × Settings)
    → ((s : Settings) → P (check_config s))
    → finish_config o ≡ some r
    → P r
unfolding finish_config
finish_config-checks P (done p) r hc e = subst P (some_inj.0 e) (hc p.settings)
finish_config-checks P undefined r hc e = absurd (cc)
finish_config-checks P running r hc e = absurd (cc)

-- What `smf_settings_parse_config` returns behind the lines is what the checks return.
pub parse_file-checks :
    (P : ℤ × Settings → Type 0) (st : Settings) (file : Option Bytes) (r : ℤ × Settings)
    → ((s : Settings) → P (check_config s))
    → ((s : Settings) → P (minus_one, s))
    → parse_file st file ≡ some r
    → P r
unfolding parse_file
parse_file-checks P st none r hc hm e = subst P (some_inj.0 e) (hm st)
parse_file-checks P st (some s) r hc hm e =
    finish_config-checks P (parse_lines (length s + 1) (parser_new st) s) r hc e

module _ (contents : Bytes → Option Bytes) where
  -- When `smf_settings_parse_config` returns 0, whatever the file holds, the settings have an engine, at
  -- most CHILD_LIMIT children, a queue directory, a way to choose among connections and a reply for a
  -- failed next hop. With the backend sql they have a driver and a database, and for MySQL and PostgreSQL
  -- also a host and a port other than 0; with the backend ldap they have a base, a port other than 0 and
  -- one of the scopes that the source lists.
  pub parse_config-IsChecked :
      (st t : Settings) (file : Option Bytes)
      → parse_config contents st file ≡ some (pos 0, t)
      → IsChecked t
  unfolding PassesTo parse_config
  parse_config-IsChecked st t file e =
      parse_file-checks (PassesTo IsChecked) _ (contents (config_path file)) (pos 0, t)
        check_config-PassesTo (λ s m. absurd (cc)) e refl
