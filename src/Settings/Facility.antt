-- ===== src/Settings/Facility.antt =====
-- `smf_settings_set_syslog_facility`: the name of a facility, in any case.
use spmfilter.Base.{
  ℕ, zero, suc, ◌+◌, ◌*◌, ◌^◌, ◌≡◌, refl, Bool, Option, none, some, List, [], ◌∷◌, map, arith,
  if◌then◌else◌, length, Bytes, codes, to_lower, strncasecmp_eq, pos,
}
use spmfilter.Core.Strip.{strlwc}
use spmfilter.Settings.{Settings}

-- The names that are compared in turn, and the values of <syslog.h>.
unfoldable pub facilities : List (Bytes × ℕ)
unfolding codes
facilities =
    (codes "auth", 4 * 2 ^ 3)
    ∷ (codes "authpriv", 10 * 2 ^ 3)
    ∷ (codes "cron", 9 * 2 ^ 3)
    ∷ (codes "daemon", 3 * 2 ^ 3)
    ∷ (codes "ftp", 11 * 2 ^ 3)
    ∷ (codes "kern", 0 * 2 ^ 3)
    ∷ (codes "local0", 16 * 2 ^ 3)
    ∷ (codes "local1", 17 * 2 ^ 3)
    ∷ (codes "local2", 18 * 2 ^ 3)
    ∷ (codes "local3", 19 * 2 ^ 3)
    ∷ (codes "local4", 20 * 2 ^ 3)
    ∷ (codes "local5", 21 * 2 ^ 3)
    ∷ (codes "local6", 22 * 2 ^ 3)
    ∷ (codes "local7", 23 * 2 ^ 3)
    ∷ (codes "lpr", 6 * 2 ^ 3)
    ∷ (codes "mail", 2 * 2 ^ 3)
    ∷ (codes "news", 7 * 2 ^ 3)
    ∷ (codes "user", 1 * 2 ^ 3)
    ∷ (codes "uucp", 8 * 2 ^ 3)
    ∷ []

-- strcasecmp(a, b) == 0
unfoldable pub strcasecmp_eq : Bytes → Bytes → Bool
strcasecmp_eq a b = strncasecmp_eq a b (length b + 1)

unfoldable pub find_facility : Bytes → List (Bytes × ℕ) → Option ℕ
find_facility name [] = none
find_facility name ((n, v) ∷ rest) =
    let later = find_facility name rest in if strcasecmp_eq name n then some v else later

unfoldable pub set_syslog_facility : Settings → Bytes → Settings
set_syslog_facility st facility = elim (find_facility facility facilities) [
  | none ↦ st
  | some v ↦ record st { syslog_facility = pos v }
]

to_lower_idem : (c : ℕ) → to_lower (to_lower c) ≡ to_lower c
unfolding to_lower
to_lower_idem c = ground arith

strncasecmp_eq-strlwc :
    (a b : Bytes) (n : ℕ) → strncasecmp_eq (map to_lower a) b n ≡ strncasecmp_eq a b n
unfolding strncasecmp_eq
strncasecmp_eq-strlwc a b zero = refl
strncasecmp_eq-strlwc [] b (suc n) = refl
strncasecmp_eq-strlwc (x ∷ a) [] (suc n) = refl
strncasecmp_eq-strlwc (x ∷ a) (y ∷ b) (suc n) =
    rw (to_lower_idem x, strncasecmp_eq-strlwc a b n) refl

find_facility-strlwc :
    (name : Bytes) (table : List (Bytes × ℕ))
    → find_facility (strlwc name) table ≡ find_facility name table
unfolding find_facility strcasecmp_eq strlwc
find_facility-strlwc name [] = refl
find_facility-strlwc name ((n, v) ∷ rest) =
    rw (strncasecmp_eq-strlwc name n (length n + 1), find_facility-strlwc name rest) refl

-- The case of a facility's name does not matter.
pub set_syslog_facility-strlwc :
    (st : Settings) (facility : Bytes)
    → set_syslog_facility st (strlwc facility) ≡ set_syslog_facility st facility
unfolding set_syslog_facility
set_syslog_facility-strlwc st facility =
    rw (find_facility-strlwc facility facilities, set_syslog_facility) refl
