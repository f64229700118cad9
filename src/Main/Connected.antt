-- ===== src/Main/Connected.antt =====
-- What `smf_lookup_ldap_connect` leaves in the settings when it returns 0.
use mathlib.Core.Path.{subst}
use mathlib.Core.Option.{some_inj}
use spmfilter.Base.{
  ℕ, ◌≡◌, refl, ◌⊎◌, inl, inr, Option, none, some, List, [], ◌∷◌, Option-cases, Bytes, ℤ, pos,
  minus_one, eq_ℤ,
}
use spmfilter.Modules.Codes.{if_both}
use spmfilter.Lookup.Ldap.{
  Ldap, Bound, get_uri, init_ld, bind_with, bind, attempt, or_else, other_hosts, ldap_connect,
}

-- There is a handle, or the code is -1.
abbrev pub IsHeld : {L W : Type 0} → ℤ × Bound L W → Type 0
IsHeld {L} r = ((ld : L) × (r.1.connection ≡ some ld)) ⊎ (r.0 ≡ minus_one)

module _ {L W : Type 0} (lib : Ldap L W) where
  bind_with-IsHeld :
      (ld : L) (dir name word : Option Bytes) (b : Bound L W)
      → b.connection ≡ some ld
      → IsHeld (bind_with lib ld dir name word b)
  bind_with-IsHeld ld none name word b h = inr refl
  bind_with-IsHeld ld (some dir) none word b h = inr refl
  bind_with-IsHeld ld (some dir) (some name) none b h = inr refl
  bind_with-IsHeld ld (some dir) (some name) (some word) b h = inl (ld, h)

  bind-IsHeld : (b : Bound L W) (r : ℤ × Bound L W) → bind lib b ≡ some r → IsHeld r
  unfolding bind
  bind-IsHeld b r e = elim (Option-cases b.connection) [
    | inl n ↦ let stops : none ≡ some r = rw (n, bind) at e in absurd (cc)
    | inr (ld, h) ↦
        let st = b.settings in
        let runs : some (bind_with lib ld st.ldap_base st.ldap_binddn st.ldap_bindpw b) ≡ some r =
          rw (h, bind) at e in
        subst IsHeld (some_inj.0 runs)
          (bind_with-IsHeld ld st.ldap_base st.ldap_binddn st.ldap_bindpw b h)
  ]

  attempt-IsHeld :
      (uri : Option Bytes) (b : Bound L W) (r : ℤ × Bound L W)
      → attempt lib uri b ≡ some r
      → IsHeld r
  attempt-IsHeld none b r e = absurd (cc)
  attempt-IsHeld (some uri) b r e = bind-IsHeld (init_ld lib uri b) r e

  or_else-IsHeld :
      (o : Option (ℤ × Bound L W)) (following : ℤ × Bound L W → Option (ℤ × Bound L W))
      (t : ℤ × Bound L W)
      → ((r : ℤ × Bound L W) → o ≡ some r → IsHeld r)
      → ((r : ℤ × Bound L W) → IsHeld r → following r ≡ some t → IsHeld t)
      → or_else lib o following ≡ some t
      → IsHeld t
  or_else-IsHeld none following t ho hn e = absurd (cc)
  or_else-IsHeld (some r) following t ho hn e =
      if_both (λ (o : Option (ℤ × Bound L W)). o ≡ some t → IsHeld t) (eq_ℤ r.0 (pos 0)) (some r)
        (following r) (λ d. subst IsHeld (some_inj.0 d) (ho r refl)) (hn r (ho r refl)) e

  other_hosts-IsHeld :
      (random : ℕ) (hosts : List Bytes) (r t : ℤ × Bound L W)
      → IsHeld r
      → other_hosts lib random hosts r ≡ some t
      → IsHeld t
  unfolding other_hosts
  other_hosts-IsHeld random [] r t k e = subst IsHeld (some_inj.0 e) k
  other_hosts-IsHeld random (x ∷ xs) (ret, b) t k e =
      or_else-IsHeld _ (other_hosts lib random xs) t (attempt-IsHeld _ b)
        (λ r kr. other_hosts-IsHeld random xs r t kr) e

  pub ldap_connect-IsHeld :
      (random : ℕ) (b : Bound L W) (t : ℤ × Bound L W)
      → ldap_connect lib random b ≡ some t
      → IsHeld t
  unfolding ldap_connect
  ldap_connect-IsHeld random b t e = elim (Option-cases b.settings.backend_connection) [
    | inl n ↦
        let fails : some (minus_one, b) ≡ some t = rw (n, ldap_connect) at e in
        subst IsHeld (some_inj.0 fails) (inr refl)
    | inr (kind, s) ↦
        let runs : or_else lib (attempt lib (get_uri random b.settings none) b)
              (λ r. other_hosts lib random r.1.settings.ldap_host r)
            ≡ some t =
          rw (s, ldap_connect) at e in
        or_else-IsHeld _ (λ r. other_hosts lib random r.1.settings.ldap_host r) t
          (attempt-IsHeld _ b) (λ r kr. other_hosts-IsHeld random r.1.settings.ldap_host r t kr)
          runs
  ]
