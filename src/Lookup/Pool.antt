-- ===== src/Lookup/Pool.antt =====
-- The pool of connections: `smf_lookup_sql_start_pool`, `_connect`, `_disconnect` and `_get_connection`
-- of src/smf_lookup_sql.c, for what libzdb does.
use spmfilter.Base.{
  lt_ℤ, ℕ, zero, suc, ◌+◌, ◌%◌, Bool, Option, none, some, List, [], ◌∷◌, ◌==◌, if◌then◌else◌, Bytes,
  codes, ℤ, pos, minus_one, eq_ℤ, positive, printf_s,
}
use spmfilter.Settings.{Settings}
use spmfilter.Settings.Facility.{strcasecmp_eq}
use spmfilter.Lookup.Dsn.{Dsn, crashed, no_dsn, dsn, get_dsn}

-- What libzdb and its database do. `P` is a pool, `C` a connection and `W` their state.
pub record Zdb (P C W : Type 0) : Type 0 where
  -- `URL_new` and `ConnectionPool_new`
  pub pool_new : W → Bytes → Option P × W
  pub initial_connections : W → P → ℤ
  pub set_initial_connections : W → P → ℤ → W
  pub set_max_connections : W → P → ℤ → W
  pub set_reaper : W → P → ℕ → W
  pub set_abort_handler : W → P → W
  pub pool_start : W → P → W
  -- `ConnectionPool_stop` and `_free` of a pool or of NULL, and `URL_free`
  pub pool_free : W → Option P → W
  pub get_connection : W → P → Option C × W
  pub ping : W → C → Bool × W
  pub close : W → C → W
  pub reap : W → P → W

-- `settings->lookup_connection` is NULL or has a pool, which may be NULL.
pub record Link (P W : Type 0) : Type 0 where
  pub settings : Settings
  pub connection : Option (Option P)
  pub world : W

-- What follows an attempt that has failed.
abbrev pub or_next :
    {P W : Type 0}
    → Option (ℤ × Link P W)
    → (ℤ × Link P W → Option (ℤ × Link P W))
    → Option (ℤ × Link P W)
or_next none next = none
or_next (some r) next = if eq_ℤ r.0 (pos 0) then some r else next r

module _ {P C W : Type 0} (db : Zdb P C W) where
  unfoldable pub disconnect : Link P W → Link P W
  disconnect l = elim l.connection [
    | none ↦ l
    | some pool ↦ record l { connection = none; world = db.pool_free l.world pool }
  ]

  -- What is set on a new pool.
  unfoldable pub configure : Settings → P → W → W
  unfolding codes
  configure st p w =
      let n = st.sql_max_connections in
      let first : W =
        if lt_ℤ n (db.initial_connections w p) then db.set_initial_connections w p n else w in
      let w2 : W = if positive n then db.set_max_connections first p n else w in
      let w3 = db.set_reaper w2 p 60 in
      let sqlite : Bool = strcasecmp_eq (printf_s st.sql_driver) (codes "sqlite") in
      let w4 = if sqlite then w3 else db.set_abort_handler w3 p in db.pool_start w4 p

  -- The first connection of a pool that has started decides.
  unfoldable pub try_pool : P → Link P W → ℤ × Link P W
  try_pool p l =
      let (c, w) = db.get_connection l.world p in
      elim c [
        | none ↦ (minus_one, disconnect (record l { world = w }))
        | some con ↦
            let (alive, w1) = db.ping w con in
            if alive
            then (pos 0, record l { world = db.close w1 con })
            else (minus_one, disconnect (record l { world = w1 }))
      ]

  unfoldable pub start_pool : Link P W → Bytes → ℤ × Link P W
  start_pool l text =
      let l1 = disconnect l in
      let (pool, w) = db.pool_new l1.world text in
      elim pool [
        | none ↦ (minus_one, disconnect (record l1 { connection = some none; world = w }))
        | some p ↦
            try_pool p (record l1 { connection = some (some p); world = configure l1.settings p w })
      ]

  -- The pool for a text; none where the program stops, for NULL too.
  unfoldable pub start_dsn : Dsn → Link P W → Option (ℤ × Link P W)
  start_dsn crashed l = none
  start_dsn no_dsn l = none
  start_dsn (dsn st text) l = some (start_pool (record l { settings = st }) text)

  -- The loop over the hosts, for what the attempt before it returned.
  unfoldable pub failover : ℕ → Option Bytes → List Bytes → ℤ × Link P W → Option (ℤ × Link P W)
  failover random home [] r = some r
  failover random home (h ∷ hs) (ret, l) =
      or_next (start_dsn (get_dsn random home l.settings (some h)) l) (failover random home hs)

  unfoldable pub connect : ℕ → Option Bytes → Link P W → Option (ℤ × Link P W)
  connect random home l =
      or_next (start_dsn (get_dsn random home l.settings none) l)
        (λ r. failover random home r.1.settings.sql_host r)

  -- `while (i++<30)`, for turn `i` and the connection of the turn before. The last connection may be
  -- one that is closed.
  unfoldable pub tries : ℕ → ℕ → Option C → P → W → Option C × W
  tries zero i last p w = (last, w)
  tries (suc f) i last p w =
      let (c, w1) = db.get_connection w p in
      elim c [
        | none ↦ tries f (i + 1) none p (if i % 5 == 0 then db.reap w1 p else w1)
        | some con ↦
            let (alive, w2) = db.ping w1 con in
            let w3 = db.close w2 con in
            let more = tries f (i + 1) (some con) p (if i % 5 == 0 then db.reap w3 p else w3) in
            if alive then (some con, w2) else more
      ]

  -- None where the assertion at the end stops the program.
  unfoldable pub obtain : P → W → Option C × W
  unfolding tries
  obtain p w = tries 30 1 none p w
