-- ===== src/Lookup/Failover.antt =====
-- What `smf_lookup_sql_connect` leaves, and when it gives up.
use spmfilter.Base.{
  ℕ, ◌≡◌, refl, sym, ap, ◌∙◌, ◌≢◌, ◌⊎◌, inl, inr, false, Option, none, some, List, [], ◌∷◌,
  Option-cases, All, Bytes, ℤ, pos, minus_one, eq_ℤ, eq_ℤ_iff,
}
use mathlib.Core.Path.{subst}
use mathlib.Core.Option.{some_inj}
use spmfilter.Modules.Codes.{if_both}
use spmfilter.Settings.{Settings}
use spmfilter.Lookup.Dsn.{Dsn, crashed, no_dsn, dsn, get_dsn, dsn_host}
use spmfilter.Lookup.Pool.{
  Zdb, Link, disconnect, try_pool, start_pool, start_dsn, or_next, failover, connect,
}

-- 0 with a pool, or -1 and no connection.
unfoldable pub IsLinked : {P W : Type 0} → ℤ × Link P W → Type 0
IsLinked {P} r =
    ((r.0 ≡ pos 0) × ((p : P) × (r.1.connection ≡ some (some p))))
    ⊎ ((r.0 ≡ minus_one) × (r.1.connection ≡ none))

module _ {P C W : Type 0} (db : Zdb P C W) where
  pub connection-disconnect : (l : Link P W) → (disconnect db l).connection ≡ none
  unfolding disconnect
  connection-disconnect l = elim (Option-cases l.connection) [
    | inl n ↦ rw (n, disconnect) n
    | inr (p, e) ↦ rw (e, disconnect) refl
  ]

  pub settings-disconnect : (l : Link P W) → (disconnect db l).settings ≡ l.settings
  unfolding disconnect
  settings-disconnect l = elim (Option-cases l.connection) [
    | inl n ↦ rw (n, disconnect) refl
    | inr (p, e) ↦ rw (e, disconnect) refl
  ]

  -- An attempt that fails disconnects.
  failed-IsLinked : (l : Link P W) → IsLinked (minus_one, disconnect db l)
  unfolding IsLinked
  failed-IsLinked l = inr (refl, connection-disconnect l)

  started-IsLinked : (p : P) (l : Link P W) → l.connection ≡ some (some p) → IsLinked (pos 0, l)
  unfolding IsLinked
  started-IsLinked p l h = inl (refl, (p, h))

  try_pool-IsLinked :
      (p : P) (l : Link P W) → l.connection ≡ some (some p) → IsLinked (try_pool db p l)
  unfolding try_pool
  try_pool-IsLinked p l h = elim (Option-cases (db.get_connection l.world p).0) [
    | inl n ↦ rw (n, try_pool) (failed-IsLinked _)
    | inr (con, e) ↦
        let w = (db.get_connection l.world p).1 in
        rw (e, try_pool)
          (if_both IsLinked (db.ping w con).0 _ _ (started-IsLinked p _ h) (failed-IsLinked _))
  ]

  settings-try_pool : (p : P) (l : Link P W) → (try_pool db p l).1.settings ≡ l.settings
  unfolding try_pool
  settings-try_pool p l = elim (Option-cases (db.get_connection l.world p).0) [
    | inl n ↦ rw (n, try_pool) (settings-disconnect _)
    | inr (con, e) ↦
        let w = (db.get_connection l.world p).1 in
        rw (e, try_pool)
          (if_both (λ (r : ℤ × Link P W). r.1.settings ≡ l.settings) (db.ping w con).0 _ _ refl
            (settings-disconnect _))
  ]

  start_pool-IsLinked : (l : Link P W) (text : Bytes) → IsLinked (start_pool db l text)
  unfolding start_pool
  start_pool-IsLinked l text = elim (Option-cases (db.pool_new (disconnect db l).world text).0) [
    | inl n ↦ rw (n, start_pool) (failed-IsLinked _)
    | inr (p, e) ↦ rw (e, start_pool) (try_pool-IsLinked p _ refl)
  ]

  pub settings-start_pool :
      (l : Link P W) (text : Bytes) → (start_pool db l text).1.settings ≡ l.settings
  unfolding start_pool
  settings-start_pool l text = elim (Option-cases (db.pool_new (disconnect db l).world text).0) [
    | inl n ↦ rw (n, start_pool) (settings-disconnect _ ∙ settings-disconnect l)
    | inr (p, e) ↦ rw (e, start_pool) (settings-try_pool p _ ∙ settings-disconnect l)
  ]

  start_dsn-IsLinked :
      (d : Dsn) (l : Link P W) (r : ℤ × Link P W) → start_dsn db d l ≡ some r → IsLinked r
  unfolding start_dsn
  start_dsn-IsLinked crashed l r e = absurd (cc)
  start_dsn-IsLinked no_dsn l r e = absurd (cc)
  start_dsn-IsLinked (dsn st text) l r e =
      subst IsLinked (some_inj.0 e) (start_pool-IsLinked _ text)

  or_next-IsLinked :
      (o : Option (ℤ × Link P W)) (next : ℤ × Link P W → Option (ℤ × Link P W)) (t : ℤ × Link P W)
      → ((r : ℤ × Link P W) → o ≡ some r → IsLinked r)
      → ((r : ℤ × Link P W) → IsLinked r → next r ≡ some t → IsLinked t)
      → or_next o next ≡ some t
      → IsLinked t
  or_next-IsLinked none next t ho hn e = absurd (cc)
  or_next-IsLinked (some r) next t ho hn e =
      if_both (λ (o : Option (ℤ × Link P W)). o ≡ some t → IsLinked t) (eq_ℤ r.0 (pos 0)) (some r)
        (next r) (λ d. subst IsLinked (some_inj.0 d) (ho r refl)) (hn r (ho r refl)) e

  failover-IsLinked :
      (random : ℕ) (home : Option Bytes) (hs : List Bytes) (r t : ℤ × Link P W)
      → IsLinked r
      → failover db random home hs r ≡ some t
      → IsLinked t
  unfolding failover
  failover-IsLinked random home [] r t k e = subst IsLinked (some_inj.0 e) k
  failover-IsLinked random home (h ∷ hs) (ret, l) t k e =
      or_next-IsLinked _ (failover db random home hs) t (start_dsn-IsLinked _ l)
        (λ r kr. failover-IsLinked random home hs r t kr) e

  -- When `smf_lookup_sql_connect` returns, it has returned 0 and there is a pool, or it has returned -1
  -- and there is no connection.
  pub connect-IsLinked :
      (random : ℕ) (home : Option Bytes) (l : Link P W) (r : ℤ × Link P W)
      → connect db random home l ≡ some r
      → IsLinked r
  unfolding connect
  connect-IsLinked random home l t e =
      or_next-IsLinked _ (λ r. failover db random home r.1.settings.sql_host r) t
        (start_dsn-IsLinked _ l)
        (λ r kr. failover-IsLinked random home r.1.settings.sql_host r t kr) e

  -- An attempt on a host that has failed.
  unfoldable pub HasFailed : ℕ → Option Bytes → Bytes → Type 0
  HasFailed random home h =
      (before : Link P W) × ((after : Link P W) × (start_dsn db
            (get_dsn random home before.settings (some h)) before
          ≡ some (minus_one, after)))

  minus_one-failed : eq_ℤ minus_one (pos 0) ≡ false
  unfolding eq_ℤ
  minus_one-failed = refl

  zero-apart : pos 0 ≢ minus_one
  zero-apart e = absurd (cc)

  -- A result of -1 is that of the last attempt.
  or_next-minus_one :
      (o : Option (ℤ × Link P W)) (next : ℤ × Link P W → Option (ℤ × Link P W)) (t : Link P W)
      → ((r : ℤ × Link P W) → o ≡ some r → IsLinked r)
      → or_next o next ≡ some (minus_one, t)
      → (after : Link P W) × ((o ≡ some (minus_one, after))
          × (next (minus_one, after) ≡ some (minus_one, t)))
  unfolding IsLinked
  or_next-minus_one none next t ho e = absurd (cc)
  or_next-minus_one (some r) next t ho e = elim (ho r refl) [
    | inl (z, _) ↦
        let same : some r ≡ some (minus_one, t) = rw ((eq_ℤ_iff r.0 (pos 0)).1 z) at e in
        absurd (zero-apart (sym z ∙ ap (λ (x : ℤ × Link P W). x.0) (some_inj.0 same)))
    | inr (m, _) ↦
        let failed : eq_ℤ r.0 (pos 0) ≡ false = rw m minus_one-failed in
        let later : next r ≡ some (minus_one, t) = rw failed at e in
        (r.1, (ap (λ c. some (c, r.1)) m, subst (λ c. next (c, r.1) ≡ some (minus_one, t)) m later))
  ]

  failover-HasFailed :
      (random : ℕ) (home : Option Bytes) (hs : List Bytes) (r : ℤ × Link P W) (t : Link P W)
      → failover db random home hs r ≡ some (minus_one, t)
      → All (HasFailed random home) hs
  unfolding failover HasFailed
  failover-HasFailed random home [] r t e = tt
  failover-HasFailed random home (h ∷ hs) (ret, l) t e =
      let (after, (first, later)) =
        or_next-minus_one _ (failover db random home hs) t (start_dsn-IsLinked _ l) e in
      ((l, (after, first)), failover-HasFailed random home hs (minus_one, after) t later)

  -- A data source name is built for settings with the same hosts.
  abbrev KeepsHosts : List Bytes → Dsn → Type 0
  KeepsHosts hs crashed = Unit
  KeepsHosts hs no_dsn = Unit
  KeepsHosts hs (dsn st text) = st.sql_host ≡ hs

  get_dsn-KeepsHosts :
      (random : ℕ) (home : Option Bytes) (st : Settings) (host : Option Bytes)
      → KeepsHosts st.sql_host (get_dsn random home st host)
  unfolding get_dsn
  get_dsn-KeepsHosts random home st host = elim (Option-cases st.sql_driver) [
    | inl n ↦ rw (n, get_dsn) tt
    | inr (driver, d) ↦ elim (Option-cases (dsn_host random st driver host)) [
      | inl n ↦ rw (d, n, get_dsn) tt
      | inr (shown, s) ↦ rw (d, s, get_dsn) refl
    ]
  ]

  sql_host-start_dsn :
      (hs : List Bytes) (d : Dsn) (l : Link P W) (r : ℤ × Link P W)
      → KeepsHosts hs d
      → start_dsn db d l ≡ some r
      → r.1.settings.sql_host ≡ hs
  unfolding start_dsn
  sql_host-start_dsn hs crashed l r k e = absurd (cc)
  sql_host-start_dsn hs no_dsn l r k e = absurd (cc)
  sql_host-start_dsn hs (dsn st text) l r k e =
      subst (λ (x : ℤ × Link P W). x.1.settings.sql_host ≡ hs) (some_inj.0 e)
        (ap (λ x. x.sql_host) (settings-start_pool _ text) ∙ k)

  -- When `smf_lookup_sql_connect` returns -1, an attempt on each host of the configuration has failed.
  pub connect-HasFailed :
      (random : ℕ) (home : Option Bytes) (l t : Link P W)
      → connect db random home l ≡ some (minus_one, t)
      → All (HasFailed random home) l.settings.sql_host
  unfolding connect
  connect-HasFailed random home l t e =
      let (after, (first, later)) =
        or_next-minus_one _ (λ r. failover db random home r.1.settings.sql_host r) t
          (start_dsn-IsLinked _ l) e in
      subst (λ hs. All (HasFailed random home) hs)
        (sql_host-start_dsn l.settings.sql_host _ l (minus_one, after)
          (get_dsn-KeepsHosts random home l.settings none) first)
        (failover-HasFailed random home after.settings.sql_host (minus_one, after) t later)
