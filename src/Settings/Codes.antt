-- ===== src/Settings/Codes.antt =====
-- The reply texts of the configuration, and its groups of a user's own keys.
use spmfilter.Base.{
  equal-show_ℤ, equal-show_ℤ, ◌≡◌, sym, Bool, false, ◌||◌, Option, none, some, List, [], ◌∷◌, ◌++◌,
  map, ◌==◌, if◌then◌else◌, get_or, Bytes, contains, ℤ, eq_ℤ, show_ℤ,
}
use spmfilter.Core.Strip.{strstrip}
use spmfilter.Core.Split.{strsplit}
use spmfilter.Dict
use spmfilter.Dict.{Dict}
use spmfilter.Dict.Valid.{IsValid}
use spmfilter.Dict.Laws.{get-dict_set}
use spmfilter.Settings.{Settings}
use spmfilter.Settings.Strtol.{get_integer}

-- `smf_settings_set_smtp_code`
unfoldable pub set_smtp_code : Settings → ℤ → Bytes → Settings
set_smtp_code st code msg = record st { smtp_codes = Dict.dict_set st.smtp_codes (show_ℤ code) msg }

unfoldable pub get_smtp_code : Settings → ℤ → Option Bytes
get_smtp_code st code = Dict.get st.smtp_codes (show_ℤ code)

-- `_get_boolean`; an empty value has its terminator in front.
unfoldable pub get_boolean : Bytes → Bool
get_boolean val =
    let c = get_or val 0 0 in c == b'y' || (c == b'Y' || (c == b'1' || (c == b't' || c == b'T')))

-- `_get_list`: the separator is `;` if there is one, and else `,`.
unfoldable pub get_list : Bytes → List Bytes
get_list val = if contains b';' val then strsplit val (b';' ∷ []) else strsplit val (b',' ∷ [])

-- asprintf(&tmp, "%s:%s", group_name, key)
unfoldable pub group_key : Bytes → Bytes → Bytes
group_key group_name key = group_name ++ (b':' ∷ key)

unfoldable pub group_get : Settings → Bytes → Bytes → Option Bytes
group_get st group_name key = Dict.get st.groups (group_key group_name key)

unfoldable pub group_get_boolean : Settings → Bytes → Bytes → Bool
group_get_boolean st group_name key = elim (group_get st group_name key) [
  | none ↦ false
  | some s ↦ get_boolean s
]

-- None where the program stops, in strtol for NULL.
unfoldable pub group_get_integer : Settings → Bytes → Bytes → Option ℤ
group_get_integer st group_name key = elim (group_get st group_name key) [
  | none ↦ none
  | some s ↦ some (get_integer s)
]

-- None where the program stops, since `smf_core_strsplit` asserts that its text is not NULL.
unfoldable pub group_get_list : Settings → Bytes → Bytes → Option (List Bytes)
group_get_list st group_name key = elim (group_get st group_name key) [
  | none ↦ none
  | some s ↦ some (map strstrip (strsplit s (b';' ∷ [])))
]

-- A reply text that is set for a code is the one that is got for it, and the texts of all other
-- codes, negative ones too, are what they were.
pub get_smtp_code-set_smtp_code :
    (st : Settings) (c : ℤ) (msg : Bytes) (d : ℤ)
    → IsValid st.smtp_codes
    → get_smtp_code (set_smtp_code st c msg) d ≡ (if eq_ℤ c d then some msg else get_smtp_code st d)
unfolding get_smtp_code set_smtp_code
get_smtp_code-set_smtp_code st c msg d v =
    rw (sym (equal-show_ℤ c d)) (get-dict_set st.smtp_codes (show_ℤ c) msg (show_ℤ d) v)
