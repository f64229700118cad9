-- ===== src/Users.antt =====
-- The local users of a session, in src/smf_internal.c: the lookups for the addresses of an envelope
-- (`smf_internal_fetch_user_data` and what it calls), as compiled with both backends.
pub mod Copy
pub mod Path
use spmfilter.Base.{
  ℕ, ◌+◌, Bool, true, false, not, ◌&&◌, List, [], ◌∷◌, ◌++◌, Option, none, some, Bytes, ℤ, pos,
  minus_one, equal, codes, strstr_found, if◌then◌else◌,
}
use spmfilter.Core.Expand.{expand_string, expanded, failed, overread}
use spmfilter.Dict
use spmfilter.Dict.{Dict}
use spmfilter.Envelope.{Envelope}
use spmfilter.Settings.{Settings}
use spmfilter.Session.{Session, UserData}
use spmfilter.System.{System}

-- `strstr(value, addr) != NULL`; the value of a key that was listed is there.
value_matches : Option Bytes → Bytes → Bool
value_matches none addr = false
value_matches (some value) addr = strstr_found value addr

-- The inner loop of `smf_internal_user_match`, over the attributes of the settings.
match_attributes : Dict → Bytes → List Bytes → Bytes → Bool
match_attributes d attr [] addr = false
match_attributes d attr (lookup_attr ∷ rest) addr =
    let later = match_attributes d attr rest addr in
    if equal lookup_attr attr && value_matches (Dict.get d attr) addr then true else later

match_keys : Dict → List Bytes → List Bytes → Bytes → Bool
match_keys d [] attributes addr = false
match_keys d (attr ∷ rest) attributes addr =
    let later = match_keys d rest attributes addr in
    if match_attributes d attr attributes addr then true else later

-- `smf_internal_user_match`
unfoldable pub user_match : List Bytes → Dict → Bytes → Bool
unfolding match_keys match_attributes value_matches
user_match attributes d addr = match_keys d (Dict.get_keys d) attributes addr

-- The loop of `smf_internal_copy_user_data` over the keys of the origin.
unfoldable pub copy_keys : Dict → List Bytes → Dict → Dict
copy_keys origin [] d = d
copy_keys origin (k ∷ ks) d =
    copy_keys origin ks (elim (Dict.get origin k) [ none ↦ d | some v ↦ Dict.dict_set d k v ])

-- `smf_internal_copy_user_data`
unfoldable pub copy_user_data : Option Dict → Dict
copy_user_data none = Dict.new
copy_user_data (some origin) = copy_keys origin (Dict.get_keys origin) Dict.new

-- `smf_internal_get_user_result`: the loop keeps the last entry that it looked at.
unfoldable pub pick_result : List Bytes → Bytes → Option Dict → List Dict → Option Dict
pick_result attributes addr d [] = d
pick_result attributes addr d (e ∷ es) =
    let next = pick_result attributes addr (some e) es in
    if user_match attributes e addr then some e else next

unfoldable pub get_user_result : Settings → List Dict → Bytes → Dict
get_user_result st result addr =
    copy_user_data (pick_result st.ldap_result_attributes addr none result)

-- `settings->backend` is the one named.
unfoldable pub is_backend : Settings → Bytes → Bool
is_backend st name = elim st.backend [ none ↦ false | some b ↦ equal b name ]

module _ {M W : Type 0} (sys : System M W) (st : Settings) where
  -- The text of a query: none where the expansion fails, and what there is where it reads behind its
  -- buffer. A missing query is not expanded, since `smf_internal_fetch_user_data` has returned before.
  unfoldable query_text : Option Bytes → Bytes → Option Bytes
  query_text none addr = none
  query_text (some format) addr = elim (expand_string format addr) [
    | expanded _ q ↦ some q
    | failed _ ↦ none
    | overread ↦ sys.overread format addr
  ]

  -- What `smf_internal_query_user` does with the result of a lookup.
  unfoldable add_user : Session M → Bytes → Option (List Dict) → Session M
  add_user s addr none = s
  add_user s addr (some result) = record s {
    local_users =
        s.local_users ++ (record { email = addr; fields = get_user_result st result addr }) ∷ [];
  }

  -- One of the two lookups: the code, and the session and the world after it.
  unfoldable query_with :
      Option Bytes
      → (W → Settings → Bytes → Option (List Dict) × W)
      → Bytes
      → Session M
      → W
      → ℤ × Session M × W
  query_with format lookup addr s w = elim (query_text format addr) [
    | none ↦ (minus_one, s, w)
    | some q ↦ let (result, w') = lookup w st q in (pos 0, add_user s addr result, w')
  ]

  unfoldable pub query_user : Bytes → Session M → W → ℤ × Session M × W
  unfolding query_with add_user query_text
  query_user [] s w = (pos 0, s, w)
  query_user (c ∷ cs) s w =
      if is_backend st (codes "ldap")
      then query_with st.ldap_user_query sys.ldap_query (c ∷ cs) s w
      else if is_backend st (codes "sql")
      then query_with st.sql_user_query sys.sql_query (c ∷ cs) s w
      else (pos 0, s, w)

  -- The loop over the recipients; a failed lookup is only logged.
  unfoldable pub query_all : List Bytes → Session M → W → Session M × W
  query_all [] s w = (s, w)
  query_all (addr ∷ rest) s w = let (_, s', w') = query_user addr s w in query_all rest s' w'

  unfoldable query_sender : Option Bytes → Session M → W → Session M × W
  query_sender none s w = (s, w)
  query_sender (some addr) s w = let (_, s', w') = query_user addr s w in (s', w')

  -- The tests in front of the lookups: a backend that has its query.
  unfoldable pub has_query : Bool
  has_query = elim st.backend [
    | none ↦ false
    | some b ↦
        if equal b (codes "ldap")
        then elim st.ldap_user_query [ none ↦ false | some _ ↦ true ]
        else if equal b (codes "sql")
        then elim st.sql_user_query [ none ↦ false | some _ ↦ true ]
        else true
  ]

  -- `smf_internal_fetch_user_data`; it returns 0 in every case.
  unfoldable pub fetch_user_data : Session M → W → Session M × W
  unfolding query_sender
  fetch_user_data s w =
      if has_query
      then (let (s', w') = query_all s.envelope.recipients s w in
          query_sender s'.envelope.sender s' w')
      else (s, w)
