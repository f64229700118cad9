-- ===== src/Settings/Sane.antt =====
-- What every line of a configuration leaves true of the settings.
pub mod Sections
use spmfilter.Base.{
  ◌-◌, ◌≡◌, ap, inl, inr, Bool, true, ◌||◌, Option, none, some, Bool-cases, Option-cases, set,
  Bytes, codes, ℤ, pos, eq_ℤ,
}
use spmfilter.Dict.Valid.{IsValid}
use spmfilter.Settings.{Settings}
use spmfilter.Dict.Laws.{dict_set-IsValid}
use spmfilter.Modules.Codes.{if_both}
use spmfilter.Settings.Facility.{set_syslog_facility, find_facility, facilities}
use spmfilter.Settings.Strtol.{get_integer}
use spmfilter.Settings.Values.{
  Setter, Keys, sets, config_module_fail, config_tls, config_backend, config_backend_connection,
  config_sql_driver, known_backend, known_connection, known_driver, freed, global_keys, sql_keys,
  ldap_keys, smtpd_keys, set_key, no_key, config_code, config_group, set_config_value,
}

abbrev pub allowed : (Bytes → Bool) → Option Bytes → Bool
allowed f none = true
allowed f (some v) = f v

abbrev pub is_one_of : ℤ → ℤ → ℤ → ℤ → Bool
is_one_of a b c i = eq_ℤ i a || (eq_ℤ i b || eq_ℤ i c)

-- module_fail and tls_enable have one of the values that mean something, and a backend, a way to choose
-- among connections and a driver that are set are known ones; the two dictionaries are well formed.
unfoldable pub IsSane : Settings → Type 0
IsSane st =
    (is_one_of (pos 1) (pos 2) (pos 3) st.module_fail ≡ true)
    × ((is_one_of (pos 0) (pos 1) (pos 2) st.tls ≡ true)
        × ((allowed known_backend st.backend ≡ true)
            × ((allowed known_connection st.backend_connection ≡ true)
                × ((allowed known_driver st.sql_driver ≡ true)
                    × (IsValid st.smtp_codes × IsValid st.groups)))))

abbrev pub SaneIf : Option Settings → Type 0
SaneIf none = Unit
SaneIf (some st) = IsSane st

abbrev pub KeepsSane : Setter → Type 0
KeepsSane f = (st : Settings) (v : Bytes) → IsSane st → SaneIf (f st v)

pub config_module_fail-KeepsSane : KeepsSane (sets config_module_fail)
unfolding config_module_fail IsSane
config_module_fail-KeepsSane st v c =
    elim (Bool-cases (is_one_of (pos 1) (pos 2) (pos 3) (get_integer v))) [
      | inl y ↦ rw y (y, c.1)
      | inr n ↦ rw n c
    ]

pub config_tls-KeepsSane : KeepsSane (sets config_tls)
unfolding config_tls IsSane
config_tls-KeepsSane st v c =
    elim (Bool-cases (is_one_of (pos 0) (pos 1) (pos 2) (get_integer v))) [
      | inl y ↦ rw y (c.0, (y, c.1.1))
      | inr n ↦ rw n c
    ]

pub freed-SaneIf : (o : Option Bytes) (st : Settings) → IsSane st → SaneIf (freed o st)
freed-SaneIf none st c = c
freed-SaneIf (some v) st c = tt

pub config_backend-KeepsSane : KeepsSane config_backend
unfolding config_backend IsSane
config_backend-KeepsSane st v c = elim (Bool-cases (known_backend v)) [
  | inl y ↦ rw y (c.0, (c.1.0, (y, c.1.1.1)))
  | inr n ↦ rw n (freed-SaneIf st.backend st c)
]

pub config_backend_connection-KeepsSane : KeepsSane config_backend_connection
unfolding config_backend_connection IsSane
config_backend_connection-KeepsSane st v c = elim (Bool-cases (known_connection v)) [
  | inl y ↦ rw y (c.0, (c.1.0, (c.1.1.0, (y, c.1.1.1.1))))
  | inr n ↦ rw n (freed-SaneIf st.backend_connection st c)
]

pub config_sql_driver-KeepsSane : KeepsSane config_sql_driver
unfolding config_sql_driver IsSane
config_sql_driver-KeepsSane st v c = elim (Bool-cases (known_driver v)) [
  | inl y ↦ rw y (c.0, (c.1.0, (c.1.1.0, (c.1.1.1.0, (y, c.1.1.1.1.1)))))
  | inr n ↦ rw n (freed-SaneIf st.sql_driver st c)
]

pub set_syslog_facility-KeepsSane : KeepsSane (sets set_syslog_facility)
unfolding set_syslog_facility IsSane
set_syslog_facility-KeepsSane st v c = elim (Option-cases (find_facility v facilities)) [
  | inl n ↦ rw (n, set_syslog_facility) c
  | inr (w, e) ↦ rw (e, set_syslog_facility) c
]
