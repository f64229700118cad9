-- ===== src/Main/Kept.antt =====
-- Connecting to a backend leaves the settings as they are, but for the name of an SQLite database.
use mathlib.Core.Path.{subst}
use mathlib.Core.Option.{some_inj}
use spmfilter.Base.{
  ℕ, ◌≡◌, refl, ap, sym, ◌∙◌, inl, inr, Option, none, some, List, [], ◌∷◌, Option-cases, Bytes, ℤ,
  pos, minus_one, eq_ℤ,
}
use spmfilter.Modules.Codes.{if_both}
use spmfilter.Settings.{Settings}
use spmfilter.Lookup.Dsn.{Dsn, crashed, no_dsn, dsn, get_dsn, dsn_host, dsn_name}
use spmfilter.Lookup.Pool.{Zdb, Link, start_dsn, or_next, failover, connect}
use spmfilter.Lookup.Failover.{settings-start_pool}
use spmfilter.Lookup.Ldap.{
  Ldap, Bound, init_ld, bind_with, bind, attempt, get_uri, or_else, other_hosts, ldap_connect,
}

-- The same settings, but for the name of the SQL database.
unfoldable pub SameBut : Settings → Settings → Type 0
SameBut st t = (name : Option Bytes) × (t ≡ record st { sql_name = name })

pub SameBut-refl : (st : Settings) → SameBut st st
unfolding SameBut
SameBut-refl st = (st.sql_name, refl)

SameBut-trans : (st t u : Settings) → SameBut st t → SameBut t u → SameBut st u
unfolding SameBut
SameBut-trans st t u (n, e) (m, d) = (m, subst (λ x. u ≡ record x { sql_name = m }) e d)

-- The settings of a data source name are those that it is built from.
abbrev Builds : Settings → Dsn → Type 0
Builds st crashed = Unit
Builds st no_dsn = Unit
Builds st (dsn t text) = SameBut st t

get_dsn-Builds :
    (random : ℕ) (home : Option Bytes) (st : Settings) (host : Option Bytes)
    → Builds st (get_dsn random home st host)
unfolding get_dsn SameBut
get_dsn-Builds random home st host = elim (Option-cases st.sql_driver) [
  | inl n ↦ rw (n, get_dsn) tt
  | inr (driver, d) ↦ elim (Option-cases (dsn_host random st driver host)) [
    | inl n ↦ rw (d, n, get_dsn) tt
    | inr (shown, s) ↦
        let name = (dsn_name home driver st.sql_name).0 in
        rw (d, s, get_dsn) (name, ap (λ x. record st { sql_driver = x; sql_name = name }) d)
  ]
]

module _ {P C W : Type 0} (db : Zdb P C W) (st : Settings) where
  abbrev Keeps : ℤ × Link P W → Type 0
  Keeps r = SameBut st r.1.settings

  start_dsn-Keeps :
      (d : Dsn) (l : Link P W) (r : ℤ × Link P W)
      → SameBut st l.settings
      → Builds l.settings d
      → start_dsn db d l ≡ some r
      → Keeps r
  unfolding start_dsn
  start_dsn-Keeps crashed l r k b e = absurd (cc)
  start_dsn-Keeps no_dsn l r k b e = absurd (cc)
  start_dsn-Keeps (dsn t text) l r k b e = subst Keeps (some_inj.0 e) (
      subst (SameBut st) (sym (settings-start_pool db (record l { settings = t }) text))
        (SameBut-trans st l.settings t k b))

  or_next-Keeps :
      (o : Option (ℤ × Link P W)) (next : ℤ × Link P W → Option (ℤ × Link P W)) (t : ℤ × Link P W)
      → ((r : ℤ × Link P W) → o ≡ some r → Keeps r)
      → ((r : ℤ × Link P W) → Keeps r → next r ≡ some t → Keeps t)
      → or_next o next ≡ some t
      → Keeps t
  or_next-Keeps none next t ho hn e = absurd (cc)
  or_next-Keeps (some r) next t ho hn e =
      if_both (λ (o : Option (ℤ × Link P W)). o ≡ some t → Keeps t) (eq_ℤ r.0 (pos 0)) (some r)
        (next r) (λ d. subst Keeps (some_inj.0 d) (ho r refl)) (hn r (ho r refl)) e

  -- One attempt.
  attempt-Keeps :
      (random : ℕ) (home host : Option Bytes) (l : Link P W) (r : ℤ × Link P W)
      → SameBut st l.settings
      → start_dsn db (get_dsn random home l.settings host) l ≡ some r
      → Keeps r
  attempt-Keeps random home host l r k e =
      start_dsn-Keeps (get_dsn random home l.settings host) l r k
        (get_dsn-Builds random home l.settings host) e

  failover-Keeps :
      (random : ℕ) (home : Option Bytes) (hs : List Bytes) (r t : ℤ × Link P W)
      → Keeps r
      → failover db random home hs r ≡ some t
      → Keeps t
  unfolding failover
  failover-Keeps random home [] r t k e = subst Keeps (some_inj.0 e) k
  failover-Keeps random home (h ∷ hs) (ret, l) t k e =
      or_next-Keeps _ (failover db random home hs) t
        (λ r d. attempt-Keeps random home (some h) l r k d)
        (λ r kr. failover-Keeps random home hs r t kr) e

  pub connect-Keeps :
      (random : ℕ) (home : Option Bytes) (l : Link P W) (t : ℤ × Link P W)
      → SameBut st l.settings
      → connect db random home l ≡ some t
      → SameBut st t.1.settings
  unfolding connect
  connect-Keeps random home l t k e =
      or_next-Keeps _ (λ r. failover db random home r.1.settings.sql_host r) t
        (λ r d. attempt-Keeps random home none l r k d)
        (λ r kr. failover-Keeps random home r.1.settings.sql_host r t kr) e

module _ {L W : Type 0} (lib : Ldap L W) (st : Settings) where
  abbrev KeepsAll : ℤ × Bound L W → Type 0
  KeepsAll r = r.1.settings ≡ st

  bind_with-KeepsAll :
      (ld : L) (dir name word : Option Bytes) (b : Bound L W)
      → b.settings ≡ st
      → KeepsAll (bind_with lib ld dir name word b)
  bind_with-KeepsAll ld none name word b k = k
  bind_with-KeepsAll ld (some dir) none word b k = k
  bind_with-KeepsAll ld (some dir) (some name) none b k = k
  bind_with-KeepsAll ld (some dir) (some name) (some word) b k = k

  bind-KeepsAll :
      (b : Bound L W) (r : ℤ × Bound L W) → b.settings ≡ st → bind lib b ≡ some r → KeepsAll r
  unfolding bind
  bind-KeepsAll b r k e = elim (Option-cases b.connection) [
    | inl n ↦ let halts : none ≡ some r = rw (n, bind) at e in absurd (cc)
    | inr (ld, h) ↦
        let s = b.settings in
        let runs : some (bind_with lib ld s.ldap_base s.ldap_binddn s.ldap_bindpw b) ≡ some r =
          rw (h, bind) at e in
        subst KeepsAll (some_inj.0 runs)
          (bind_with-KeepsAll ld s.ldap_base s.ldap_binddn s.ldap_bindpw b k)
  ]

  settings-init_ld : (uri : Bytes) (b : Bound L W) → (init_ld lib uri b).settings ≡ b.settings
  unfolding init_ld
  settings-init_ld uri b =
      let w0 : W = elim b.connection [ none ↦ b.world | some ld ↦ lib.unbind b.world ld ] in
      elim (Option-cases (lib.initialize w0 uri).0) [
        | inl n ↦ rw (n, init_ld) refl
        | inr (l, e) ↦ rw (e, init_ld) refl
      ]

  attempt-KeepsAll :
      (uri : Option Bytes) (b : Bound L W) (r : ℤ × Bound L W)
      → b.settings ≡ st
      → attempt lib uri b ≡ some r
      → KeepsAll r
  attempt-KeepsAll none b r k e = absurd (cc)
  attempt-KeepsAll (some uri) b r k e =
      bind-KeepsAll (init_ld lib uri b) r (settings-init_ld uri b ∙ k) e

  or_else-KeepsAll :
      (o : Option (ℤ × Bound L W)) (following : ℤ × Bound L W → Option (ℤ × Bound L W))
      (t : ℤ × Bound L W)
      → ((r : ℤ × Bound L W) → o ≡ some r → KeepsAll r)
      → ((r : ℤ × Bound L W) → KeepsAll r → following r ≡ some t → KeepsAll t)
      → or_else lib o following ≡ some t
      → KeepsAll t
  or_else-KeepsAll none following t ho hn e = absurd (cc)
  or_else-KeepsAll (some r) following t ho hn e =
      if_both (λ (o : Option (ℤ × Bound L W)). o ≡ some t → KeepsAll t) (eq_ℤ r.0 (pos 0)) (some r)
        (following r) (λ d. subst KeepsAll (some_inj.0 d) (ho r refl)) (hn r (ho r refl)) e

  other_hosts-KeepsAll :
      (random : ℕ) (hosts : List Bytes) (r t : ℤ × Bound L W)
      → KeepsAll r
      → other_hosts lib random hosts r ≡ some t
      → KeepsAll t
  unfolding other_hosts
  other_hosts-KeepsAll random [] r t k e = subst KeepsAll (some_inj.0 e) k
  other_hosts-KeepsAll random (x ∷ xs) (ret, b) t k e =
      or_else-KeepsAll _ (other_hosts lib random xs) t (λ r d. attempt-KeepsAll _ b r k d)
        (λ r kr. other_hosts-KeepsAll random xs r t kr) e

  pub ldap_connect-KeepsAll :
      (random : ℕ) (b : Bound L W) (t : ℤ × Bound L W)
      → b.settings ≡ st
      → ldap_connect lib random b ≡ some t
      → t.1.settings ≡ st
  unfolding ldap_connect
  ldap_connect-KeepsAll random b t k e = elim (Option-cases b.settings.backend_connection) [
    | inl n ↦
        let fails : some (minus_one, b) ≡ some t = rw (n, ldap_connect) at e in
        subst KeepsAll (some_inj.0 fails) k
    | inr (kind, s) ↦
        let runs : or_else lib (attempt lib (get_uri random b.settings none) b)
              (λ r. other_hosts lib random r.1.settings.ldap_host r)
            ≡ some t =
          rw (s, ldap_connect) at e in
        or_else-KeepsAll _ (λ r. other_hosts lib random r.1.settings.ldap_host r) t
          (λ r d. attempt-KeepsAll _ b r k d)
          (λ r kr. other_hosts-KeepsAll random r.1.settings.ldap_host r t kr) runs
  ]
