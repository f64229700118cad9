-- ===== src/Settings/Backend.antt =====
-- What the checks of a backend let through, in `smf_settings_parse_config`.
use spmfilter.Base.{
  ℕ, ◌≡◌, refl, inl, inr, Bool, true, false, not, ◌&&◌, ◌||◌, Option, some, [], arith,
  if◌then◌else◌, Bool-cases, Bytes, codes, equal, ℤ, pos, eq_ℤ,
}
use spmfilter.Settings.{Settings}
use spmfilter.Modules.Codes.{if_both}
use spmfilter.Settings.Check.{
  is_some, is_text, is_empty, is_scope, default, default_port, sql_checks, ldap_checks,
}

unfoldable pub networked : Settings → Bool
unfolding codes
networked st = is_text (codes "mysql") st.sql_driver || is_text (codes "postgresql") st.sql_driver

-- What holds of the settings where the return code is 0.
unfoldable pub PassesTo : (Settings → Type 0) → ℤ × Settings → Type 0
PassesTo P r = r.0 ≡ pos 0 → P r.1

unfoldable pub SqlNamed : Settings → Type 0
SqlNamed st =
    (is_some st.sql_driver ≡ true)
    × ((is_some st.sql_name ≡ true)
        × (networked st ≡ true
            → (is_empty st.sql_host ≡ false) × (eq_ℤ st.sql_port (pos 0) ≡ false)))

unfoldable pub LdapScoped : Settings → Type 0
LdapScoped st =
    (is_scope st.ldap_scope ≡ true)
    × ((is_some st.ldap_base ≡ true) × (eq_ℤ st.ldap_port (pos 0) ≡ false))

-- Only the port is set.
default_port-shape :
    (d : Bytes) (n : ℕ) (st : Settings)
    → default_port d n st ≡ record st {
      sql_port = if is_text d st.sql_driver && eq_ℤ st.sql_port (pos 0) then pos n else st.sql_port;
    }
unfolding default_port
default_port-shape d n st =
    elim (Bool-cases (is_text d st.sql_driver && eq_ℤ st.sql_port (pos 0))) [
      | inl y ↦ rw y refl
      | inr z ↦ rw z refl
    ]

abbrev with_port : Settings → Settings
unfolding codes
with_port st = default_port (codes "postgresql") 5432 (default_port (codes "mysql") 3306 st)

port_set :
    (m g : Bool) (x : ℤ)
    → (m || g) ≡ true
    → let y : ℤ = if m && eq_ℤ x (pos 0) then pos 3306 else x in
      eq_ℤ (if g && eq_ℤ y (pos 0) then pos 5432 else y) (pos 0) ≡ false
unfolding eq_ℤ
port_set m g x h = ground arith

with_port-SqlNamed :
    (st : Settings)
    → is_some st.sql_driver ≡ true
    → is_some st.sql_name ≡ true
    → (networked st && is_empty st.sql_host) ≡ false
    → SqlNamed (with_port st)
unfolding SqlNamed networked with_port codes
with_port-SqlNamed st d n h =
    rw
      (
        default_port-shape (codes "postgresql") 5432 (default_port (codes "mysql") 3306 st),
        default_port-shape (codes "mysql") 3306 st,
      )
      (
        d,
        (
          n,
          λ w. (
            ground arith,
            port_set (is_text (codes "mysql") st.sql_driver)
                (is_text (codes "postgresql") st.sql_driver) st.sql_port w,
          ),
        ),
      )

pub sql_checks-SqlNamed : (st : Settings) → PassesTo SqlNamed (sql_checks st)
unfolding sql_checks PassesTo networked
sql_checks-SqlNamed st = elim (Bool-cases (not (is_some st.sql_driver))) [
  | inl y ↦ rw y λ e. absurd (cc)
  | inr n ↦ elim (Bool-cases (not (is_some st.sql_name))) [
    | inl y ↦ rw (n, y) λ e. absurd (cc)
    | inr m ↦ elim (Bool-cases (networked st && is_empty st.sql_host)) [
      | inl y ↦ rw (n, m, y) λ e. absurd (cc)
      | inr o ↦ rw (n, m, o) λ e. with_port-SqlNamed st (ground arith) (ground arith) o
    ]
  ]
]

-- What the checks of a backend do not touch.
pub record Keeps (st st' : Settings) : Type 0 where
  pub engine_kept : st'.engine ≡ st.engine
  pub childs_kept : st'.max_childs ≡ st.max_childs
  pub queue_dir_kept : st'.queue_dir ≡ st.queue_dir
  pub connection_kept : st'.backend_connection ≡ st.backend_connection
  pub backend_kept : st'.backend ≡ st.backend

pub Keeps-refl : (st : Settings) → Keeps st st
Keeps-refl st = record {
  engine_kept = refl;
  childs_kept = refl;
  queue_dir_kept = refl;
  connection_kept = refl;
  backend_kept = refl;
}

default_port-Keeps :
    (d : Bytes) (n : ℕ) (st s : Settings) → Keeps st s → Keeps st (default_port d n s)
default_port-Keeps d n st s k = rw (default_port-shape d n s) (record {
  engine_kept = k.engine_kept;
  childs_kept = k.childs_kept;
  queue_dir_kept = k.queue_dir_kept;
  connection_kept = k.connection_kept;
  backend_kept = k.backend_kept;
})

pub sql_checks-Keeps : (st : Settings) → Keeps st (sql_checks st).1
unfolding sql_checks networked
sql_checks-Keeps st =
    let k = Keeps-refl st in
    let P : ℤ × Settings → Type 0 = λ r. Keeps st r.1 in
    if_both P (not (is_some st.sql_driver)) _ _ k (
      if_both P (not (is_some st.sql_name)) _ _ k (
        if_both P (networked st && is_empty st.sql_host) _ _ k (
          default_port-Keeps (codes "postgresql") 5432 st (default_port (codes "mysql") 3306 st)
            (default_port-Keeps (codes "mysql") 3306 st st k))))

pub default_set : (d : Bytes) (o : Option Bytes) → is_some (default d o) ≡ true
default_set d o = ground arith

ldap_port_set : (x : ℤ) → eq_ℤ (if eq_ℤ x (pos 0) then pos 389 else x) (pos 0) ≡ false
unfolding eq_ℤ
ldap_port_set x = ground arith

subtree_scope : is_scope (some (codes "subtree")) ≡ true
unfolding is_scope is_text equal codes
subtree_scope = refl

pub ldap_checks-LdapScoped : (st : Settings) → PassesTo LdapScoped (ldap_checks st)
unfolding ldap_checks PassesTo LdapScoped
ldap_checks-LdapScoped st =
    let base = default_set [] st.ldap_base in
    let port = ldap_port_set st.ldap_port in
    elim (Bool-cases (not (is_some st.ldap_scope))) [
      | inl y ↦ rw y λ e. (subtree_scope, (base, port))
      | inr n ↦ elim (Bool-cases (is_scope st.ldap_scope)) [
        | inl y ↦ rw (n, y) λ e. (y, (base, port))
        | inr z ↦ rw (n, z) λ e. absurd (cc)
      ]
    ]

-- The LDAP checks leave the SQL settings and what `Keeps` names.
pub ldap_checks-keep :
    (P : Settings → Type 0) (st : Settings)
    → ((p : ℤ) (b s : Option Bytes)
        → P (record st { ldap_port = p; ldap_base = b; ldap_scope = s }))
    → P (ldap_checks st).1
unfolding ldap_checks
ldap_checks-keep P st h =
    let Q : ℤ × Settings → Type 0 = λ r. P r.1 in
    let port : ℤ = if eq_ℤ st.ldap_port (pos 0) then pos 389 else st.ldap_port in
    let base = default [] st.ldap_base in
    if_both Q (not (is_some st.ldap_scope)) _ _ (h port base (some (codes "subtree"))) (
      if_both Q (is_scope st.ldap_scope) _ _ (h port base st.ldap_scope)
        (h port base st.ldap_scope))
