-- ===== src/Settings/Sane/Sections.antt =====
-- Every key of the tables of a section keeps the settings sane, and so does `_set_config_value`.
use spmfilter.Base.{lt_ℤ, not, ◌&&◌, [], ◌∷◌, All, Bytes, codes, equal, pos}
use spmfilter.Settings.{Settings}
use spmfilter.Dict.Laws.{dict_set-IsValid}
use spmfilter.Modules.Codes.{if_both}
use spmfilter.Settings.Codes.{group_key}
use spmfilter.Settings.Strtol.{get_integer}
use spmfilter.Settings.Values.{
  Setter, Keys, global_keys, sql_keys, ldap_keys, smtpd_keys, set_key, no_key, config_code,
  config_group, set_config_value,
}
use spmfilter.Settings.Sane.{
  IsSane, SaneIf, KeepsSane, config_module_fail-KeepsSane, config_tls-KeepsSane,
  config_backend-KeepsSane, config_backend_connection-KeepsSane, config_sql_driver-KeepsSane,
  set_syslog_facility-KeepsSane,
}

abbrev KeepSane : Keys → Type 0
KeepSane keys = All (λ row. KeepsSane row.1) keys

global_keys-KeepSane : KeepSane global_keys
unfolding global_keys IsSane
global_keys-KeepSane = (
  λ _ _ c. c,
  (
    λ _ _ c. c,
    (
      λ _ _ c. c,
      (
        λ _ _ c. c,
        (
          config_module_fail-KeepsSane,
          (
            λ _ _ c. c,
            (
              config_backend-KeepsSane,
              (
                config_backend_connection-KeepsSane,
                (
                  λ _ _ c. c,
                  (
                    λ _ _ c. c,
                    (
                      config_tls-KeepsSane,
                      (
                        λ _ _ c. c,
                        (
                          λ _ _ c. c,
                          (
                            λ _ _ c. c,
                            (
                              λ _ _ c. c,
                              (
                                λ _ _ c. c,
                                (
                                  λ _ _ c. c,
                                  (
                                    λ _ _ c. c,
                                    (
                                      λ _ _ c. c,
                                      (
                                        λ _ _ c. c,
                                        (
                                          λ _ _ c. c,
                                          (λ _ _ c. c, (set_syslog_facility-KeepsSane, tt)),
                                        ),
                                      ),
                                    ),
                                  ),
                                ),
                              ),
                            ),
                          ),
                        ),
                      ),
                    ),
                  ),
                ),
              ),
            ),
          ),
        ),
      ),
    ),
  ),
)

sql_keys-KeepSane : KeepSane sql_keys
unfolding sql_keys IsSane
sql_keys-KeepSane = (
  config_sql_driver-KeepsSane,
  (
    λ _ _ c. c,
    (
      λ _ _ c. c,
      (λ _ _ c. c, (λ _ _ c. c, (λ _ _ c. c, (λ _ _ c. c, (λ _ _ c. c, (λ _ _ c. c, tt)))))),
    ),
  ),
)

ldap_keys-KeepSane : KeepSane ldap_keys
unfolding ldap_keys IsSane
ldap_keys-KeepSane = (
  λ _ _ c. c,
  (
    λ _ _ c. c,
    (
      λ _ _ c. c,
      (
        λ _ _ c. c,
        (λ _ _ c. c, (λ _ _ c. c, (λ _ _ c. c, (λ _ _ c. c, (λ _ _ c. c, (λ _ _ c. c, tt)))))),
      ),
    ),
  ),
)

smtpd_keys-KeepSane : KeepSane smtpd_keys
unfolding smtpd_keys IsSane
smtpd_keys-KeepSane = (λ _ _ c. c, (λ _ _ c. c, (λ _ _ c. c, tt)))

set_key-KeepsSane :
    (other : Setter) (keys : Keys) (key : Bytes)
    → KeepsSane other
    → KeepSane keys
    → KeepsSane (λ st v. set_key other keys st key v)
unfolding set_key
set_key-KeepsSane other [] key ho hk st v c = ho st v c
set_key-KeepsSane other ((name, f) ∷ keys) key ho (hf, hk) st v c =
    if_both SaneIf (equal key name) _ _ (hf st v c) (set_key-KeepsSane other keys key ho hk st v c)

config_code-KeepsSane : (key : Bytes) → KeepsSane (config_code key)
unfolding config_code IsSane
config_code-KeepsSane key st v c =
    if_both SaneIf (not (lt_ℤ (get_integer key) (pos 250)) && lt_ℤ (get_integer key) (pos 600)) _ _
      (
        c.0,
        (
          c.1.0,
          (
            c.1.1.0,
            (
              c.1.1.1.0,
              (c.1.1.1.1.0, (dict_set-IsValid st.smtp_codes key v c.1.1.1.1.1.0, c.1.1.1.1.1.1)),
            ),
          ),
        ),
      )
      c

pub config_group-KeepsSane : (section key : Bytes) → KeepsSane (config_group section key)
unfolding config_group IsSane
config_group-KeepsSane section key st v c = (
  c.0,
  (
    c.1.0,
    (
      c.1.1.0,
      (
        c.1.1.1.0,
        (
          c.1.1.1.1.0,
          (c.1.1.1.1.1.0, dict_set-IsValid st.groups (group_key section key) v c.1.1.1.1.1.1),
        ),
      ),
    ),
  ),
)

pub set_config_value-SaneIf :
    (st : Settings) (section key v : Bytes) → IsSane st → SaneIf (set_config_value st section key v)
unfolding set_config_value
set_config_value-SaneIf st section key [] c = c
set_config_value-SaneIf st section key (x ∷ xs) c =
    let v = x ∷ xs in
    let none_known : KeepsSane no_key = λ s w d. d in
    if_both SaneIf (equal section (codes "global")) _ _
      (set_key-KeepsSane no_key global_keys key none_known global_keys-KeepSane st v c)
      (if_both SaneIf (equal section (codes "sql")) _ _
        (set_key-KeepsSane no_key sql_keys key none_known sql_keys-KeepSane st v c)
        (if_both SaneIf (equal section (codes "ldap")) _ _
          (set_key-KeepsSane no_key ldap_keys key none_known ldap_keys-KeepSane st v c)
          (if_both SaneIf (equal section (codes "smtpd")) _ _
            (set_key-KeepsSane (config_code key) smtpd_keys key (config_code-KeepsSane key)
              smtpd_keys-KeepSane st v c)
            (config_group-KeepsSane section key st v c))))
