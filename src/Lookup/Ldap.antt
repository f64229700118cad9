-- ===== src/Lookup/Ldap.antt =====
-- src/smf_lookup_ldap.c, for what OpenLDAP does: the connection.
pub mod Query
pub mod Entries
use spmfilter.Base.{
  ℕ, Bool, true, false, Option, none, some, List, [], ◌∷◌, ◌++◌, if◌then◌else◌, Bytes, codes, ℤ,
  pos, minus_one, eq_ℤ, show_ℤ, printf_s,
}
use spmfilter.Settings.{Settings}
use spmfilter.Settings.Facility.{strcasecmp_eq}
use spmfilter.Lookup.Dsn.{get_rand_host}

pub data Scope : Type 0 where
  subtree : Scope
  onelevel : Scope
  base : Scope

-- An entry's attribute with its values.
pub record Attribute : Type 0 where
  pub attr : Bytes
  pub values : List Bytes

-- What OpenLDAP and the server do. `L` is a handle and `W` their state.
pub record Ldap (L W : Type 0) : Type 0 where
  pub initialize : W → Bytes → Option L × W
  pub unbind : W → L → W
  pub set_version : W → L → W
  pub set_referrals : W → L → Bool → W
  -- for a name and a password; true where it succeeds
  pub sasl_bind : W → L → Bytes → Bytes → Bool × W
  -- for a base, a scope and a filter; the entries that `ldap_count_entries` counts
  pub search : W → L → Bytes → Scope → Bytes → List (List Attribute) × W

-- The settings with their `lookup_connection`.
pub record Bound (L W : Type 0) : Type 0 where
  pub settings : Settings
  pub connection : Option L
  pub world : W

-- `smf_lookup_ldap_get_rand_host` is that of smf_lookup_sql.c, line for line.
unfoldable pub host_uri : Bytes → ℤ → Bytes
unfolding codes
host_uri host port = codes "ldap://" ++ (host ++ (b':' ∷ show_ℤ port))

-- None where the program stops: for no hosts, or for a connection kind that is NULL.
unfoldable pub get_uri : ℕ → Settings → Option Bytes → Option Bytes
unfolding codes
get_uri random st (some host) = some (host_uri host st.ldap_port)
get_uri random st none = elim st.ldap_uri [
  | some uri ↦ some uri
  | none ↦ elim st.backend_connection [
    | none ↦ none
    | some kind ↦
        if strcasecmp_eq kind (codes "balance")
        then elim (get_rand_host random st.ldap_host) [
          | none ↦ none
          | some h ↦ some (host_uri (printf_s h) st.ldap_port)
        ]
        else elim st.ldap_host [ [] ↦ none | h ∷ hs ↦ some (host_uri h st.ldap_port) ]
  ]
]

module _ {L W : Type 0} (lib : Ldap L W) where
  unfoldable pub init_ld : Bytes → Bound L W → Bound L W
  init_ld uri b =
      let w0 : W = elim b.connection [ none ↦ b.world | some ld ↦ lib.unbind b.world ld ] in
      let (ld, w) = lib.initialize w0 uri in
      elim ld [
        | none ↦ record b { connection = none; world = w }
        | some l ↦ record b {
          connection = some l;
          world =
              lib.set_referrals (lib.set_version w l) l (eq_ℤ b.settings.ldap_referrals (pos 1));
        }
      ]

  -- `smf_lookup_ldap_bind` for a handle and the three settings, of which each may be NULL.
  abbrev pub bind_with : L → Option Bytes → Option Bytes → Option Bytes → Bound L W → ℤ × Bound L W
  bind_with ld none name word b = (minus_one, b)
  bind_with ld (some dir) none word b = (minus_one, b)
  bind_with ld (some dir) (some name) none b = (minus_one, b)
  bind_with ld (some dir) (some name) (some word) b =
      let (bound, w) = lib.sasl_bind b.world ld name word in
      (if bound then pos 0 else minus_one, record b { world = w })

  -- None where the assertion stops the program.
  unfoldable pub bind : Bound L W → Option (ℤ × Bound L W)
  bind b = elim b.connection [
    | none ↦ none
    | some ld ↦
        some (bind_with ld b.settings.ldap_base b.settings.ldap_binddn b.settings.ldap_bindpw b)
  ]

  -- One attempt, for an address.
  abbrev pub attempt : Option Bytes → Bound L W → Option (ℤ × Bound L W)
  attempt none b = none
  attempt (some uri) b = bind (init_ld uri b)

  -- What follows an attempt that has failed.
  abbrev pub or_else :
      Option (ℤ × Bound L W) → (ℤ × Bound L W → Option (ℤ × Bound L W)) → Option (ℤ × Bound L W)
  or_else none next = none
  or_else (some r) next = if eq_ℤ r.0 (pos 0) then some r else next r

  -- The loop over the hosts.
  unfoldable pub other_hosts : ℕ → List Bytes → ℤ × Bound L W → Option (ℤ × Bound L W)
  other_hosts random [] r = some r
  other_hosts random (h ∷ hs) (ret, b) =
      or_else (attempt (get_uri random b.settings (some h)) b) (other_hosts random hs)

  unfoldable pub ldap_connect : ℕ → Bound L W → Option (ℤ × Bound L W)
  ldap_connect random b = elim b.settings.backend_connection [
    | none ↦ some (minus_one, b)
    | some kind ↦
        or_else (attempt (get_uri random b.settings none) b)
          (λ r. other_hosts random r.1.settings.ldap_host r)
  ]

  unfoldable pub ldap_disconnect : Bound L W → Bound L W
  ldap_disconnect b = elim b.connection [
    | none ↦ b
    | some ld ↦ record b { connection = none; world = lib.unbind b.world ld }
  ]

  -- The handle, none for NULL; none of all where the program stops.
  unfoldable pub ldap_connection : ℕ → Bound L W → Option (Option L × Bound L W)
  ldap_connection random b = elim b.connection [
    | some ld ↦ some (some ld, b)
    | none ↦ elim (ldap_connect random b) [
      | none ↦ none
      | some r ↦ some (if eq_ℤ r.0 (pos 0) then r.1.connection else none, r.1)
    ]
  ]
