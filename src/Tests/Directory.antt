-- ===== src/Tests/Directory.antt =====
-- A directory with one entry of two values.
use spmfilter.Base.{ℕ, ◌+◌, ◌≡◌, refl, true, none, some, [], ◌∷◌, codes, strncasecmp_eq, eq_ℤ}
use spmfilter.Dict.{new, dict_set}
use spmfilter.Settings.{Settings, settings_new}
use spmfilter.Settings.Facility.{strcasecmp_eq}
use spmfilter.Lookup.Ldap.{
  Ldap, Bound, Attribute, get_uri, init_ld, bind, ldap_connect, ldap_connection, ldap_disconnect,
}
use spmfilter.Lookup.Ldap.Query.{
  ldap_query, ldap_search, ldap_release, entry_dicts, entry_dict, append_values, get_scope,
}
use spmfilter.Lookup.Ldap.Entries.{IsFound, ldap_query-IsFound}

abbrev two_values : Attribute
two_values = record { attr = codes "mail"; values = codes "a@b" ∷ codes "c@d" ∷ [] }

-- Every bind succeeds; the world counts the calls.
abbrev pub directory : Ldap ℕ ℕ
directory = record {
  initialize = λ w uri. (some w, w + 1);
  unbind = λ w ld. w + 1;
  set_version = λ w ld. w;
  set_referrals = λ w ld on. w;
  sasl_bind = λ w ld name word. (true, w + 1);
  search = λ w ld dir scope filter. ((two_values ∷ []) ∷ [], w + 1);
}

abbrev ldap_settings : Settings
ldap_settings = record settings_new {
  backend_connection = some (codes "failover");
  ldap_uri = some (codes "ldap://x");
  ldap_base = some (codes "o=x");
  ldap_binddn = some (codes "cn=x");
  ldap_bindpw = some (codes "y");
  ldap_scope = some (codes "base");
}

abbrev unbound : ℕ → Bound ℕ ℕ
unbound w = record { settings = ldap_settings; connection = none; world = w }

ldap_query-finds :
    ldap_query directory 0 (codes "(uid=7)") (unbound 0)
    ≡ some (some (dict_set new (codes "mail") (codes "a@b,c@d") ∷ []), unbound 4)
unfolding settings_new ldap_query ldap_search ldap_release entry_dicts entry_dict append_values
    get_scope get_uri init_ld bind ldap_connect ldap_connection ldap_disconnect strcasecmp_eq codes
    strncasecmp_eq eq_ℤ
ldap_query-finds = refl

ldap_query-IsFound_example :
    IsFound directory 0
      (codes "(uid=7)")
      (some (codes "o=x"))
      (dict_set new (codes "mail") (codes "a@b,c@d") ∷ [])
      (unbound 4)
ldap_query-IsFound_example =
    ldap_query-IsFound directory 0 (codes "(uid=7)") (unbound 0) (unbound 4)
      (dict_set new (codes "mail") (codes "a@b,c@d") ∷ []) ldap_query-finds
