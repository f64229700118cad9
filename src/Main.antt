-- ===== src/Main.antt =====
-- src/main.c, and `smf_modules_engine_load` of src/smf_modules.c: from the command line to the engine.
pub mod Connected
pub mod Kept
pub mod Ready
use spmfilter.Base.{
  ℕ, Bool, true, false, ◌&&◌, Option, none, some, List, [], ◌∷◌, if◌then◌else◌, Bytes, codes, ℤ,
  pos, minus_one, eq_ℤ,
}
use spmfilter.Settings.{Settings, settings_new}
use spmfilter.Settings.Access.{set_debug}
use spmfilter.Settings.Check.{is_text, parse_config}
use spmfilter.Lookup.Pool.{Zdb, Link, connect, disconnect}
use spmfilter.Lookup.Ldap.{Ldap, Bound, ldap_connect, ldap_disconnect}
use spmfilter.Modules.Load.{Linker, build_module_path, directory}

-- What `getopt_long` returns.
pub data Switch : Type 0 where
  help : Switch
  debug : Switch
  file : Bytes → Switch
  unknown : Switch

-- The settings with `lookup_connection`, by the backend that it belongs to, and the rest of the process.
pub record Process (L P W : Type 0) : Type 0 where
  pub settings : Settings
  pub ldap : Option L
  pub sql : Option (Option P)
  pub world : W

-- An engine; none where it ends the process.
abbrev pub Engine : Type 0 → Type 0 → Type 0 → Type 0
Engine L P W = Process L P W → Option (ℤ × Process L P W)

-- What the process finds around it. The numbers are what `rand` returns, and `home` the value of HOME.
pub record Host (L P C H W : Type 0) : Type 0 where
  pub ldap_library : Ldap L W
  pub database : Zdb P C W
  pub linker : Linker H (Engine L P W) W
  pub random : ℕ
  pub home : Option Bytes
  pub contents : Bytes → Option Bytes
  -- `stat`, with S_ISDIR where it succeeds
  pub stat : W → Option Bytes → Option Bool × W
  -- `access(path, W_OK) == 0`
  pub writable : W → Option Bytes → Bool × W

-- What becomes of the process in front of the engine: it has returned from main, or exit or an assertion
-- has ended it or C says nothing of what it does, or it goes on.
pub data Prepared (L P W : Type 0) : Type 0 where
  returned : ℤ → Prepared L P W
  stopped : Prepared L P W
  ready : Process L P W → Prepared L P W

-- The loop over the options; none where `usage` ends the process.
unfoldable pub parse_options : List Switch → ℤ → Option Bytes → Option (ℤ × Option Bytes)
parse_options [] debugging config_file = some (debugging, config_file)
parse_options (help ∷ rest) debugging config_file = none
parse_options (debug ∷ rest) debugging config_file = parse_options rest (pos 1) config_file
parse_options (file path ∷ rest) debugging config_file = parse_options rest debugging (some path)
parse_options (unknown ∷ rest) debugging config_file = none

-- `settings->backend` is the one named, and its connection is to be kept.
unfoldable pub persists : Settings → Bytes → Bool
persists st name = eq_ℤ st.lookup_persistent (pos 1) && is_text name st.backend

module _ {L P C H W : Type 0} (h : Host L P C H W) where
  abbrev pub bound : Process L P W → Bound L W
  bound p = record { settings = p.settings; connection = p.ldap; world = p.world }

  abbrev pub with_bound : Process L P W → Bound L W → Process L P W
  with_bound p b = record p { settings = b.settings; ldap = b.connection; world = b.world }

  abbrev pub linked : Process L P W → Link P W
  linked p = record { settings = p.settings; connection = p.sql; world = p.world }

  abbrev pub with_link : Process L P W → Link P W → Process L P W
  with_link p l = record p { settings = l.settings; sql = l.connection; world = l.world }

  -- What follows a connect: main returns -1 where it has failed.
  abbrev pub if_connected :
      Option (ℤ × Process L P W) → (Process L P W → Prepared L P W) → Prepared L P W
  if_connected none next = stopped
  if_connected (some (ret, p)) next = if eq_ℤ ret (pos 0) then next p else returned minus_one

  abbrev pub open_ldap : Process L P W → Option (ℤ × Process L P W)
  open_ldap p = elim (ldap_connect h.ldap_library h.random (bound p)) [
    | none ↦ none
    | some (ret, b) ↦ some (ret, with_bound p b)
  ]

  abbrev pub open_sql : Process L P W → Option (ℤ × Process L P W)
  open_sql p = elim (connect h.database h.random h.home (linked p)) [
    | none ↦ none
    | some (ret, l) ↦ some (ret, with_link p l)
  ]

  -- The tests of the queue directory.
  unfoldable pub check_queue_dir : Process L P W → Prepared L P W
  check_queue_dir p =
      let (found, w1) = h.stat p.world p.settings.queue_dir in
      elim found [
        | none ↦ returned minus_one
        | some is_dir ↦
            if is_dir
            then (let (writes, w2) = h.writable w1 p.settings.queue_dir in
                if writes then ready (record p { world = w2 }) else returned minus_one)
            else returned minus_one
      ]

  unfoldable pub connect_sql : Process L P W → Prepared L P W
  unfolding codes
  connect_sql p =
      if persists p.settings (codes "sql")
      then if_connected (open_sql p) check_queue_dir
      else check_queue_dir p

  -- A connection to the backend is opened first, if it is to be kept.
  unfoldable pub connect_backend : Process L P W → Prepared L P W
  unfolding codes
  connect_backend p =
      if persists p.settings (codes "ldap")
      then if_connected (open_ldap p) connect_sql
      else connect_sql p

  abbrev pub process_new : Settings → W → Process L P W
  process_new st w = record { settings = st; ldap = none; sql = none; world = w }

  abbrev pub with_debug : ℤ → Settings → Settings
  with_debug debugging st = if eq_ℤ debugging (pos 1) then (set_debug st debugging).1 else st

  abbrev pub configured : ℤ → W → Option (ℤ × Settings) → Prepared L P W
  configured debugging w none = stopped
  configured debugging w (some (r, st)) =
      if eq_ℤ r (pos 0)
      then connect_backend (process_new (with_debug debugging st) w)
      else returned minus_one

  -- Main up to `smf_modules_engine_load`.
  unfoldable pub prepare : List Switch → W → Prepared L P W
  prepare switches w = elim (parse_options switches (pos 0) none) [
    | none ↦ stopped
    | some (debugging, config_file) ↦
        configured debugging w (parse_config h.contents settings_new config_file)
  ]

  -- The engine of the library; none where the process ends. A library without the symbol stays open.
  unfoldable pub run_engine : H → Engine L P W
  run_engine handle p =
      let (engine, w1) = h.linker.dlsym p.world handle in
      elim engine [
        | none ↦ some (minus_one, record p { world = w1 })
        | some run ↦ elim (run (record p { world = w1 })) [
          | none ↦ none
          | some (ret, p1) ↦ some (ret, record p1 { world = (h.linker.dlclose p1.world handle).1 })
        ]
      ]

  unfoldable pub engine_load : Engine L P W
  engine_load p = elim p.settings.engine [
    | none ↦ none
    | some name ↦
        let dir = directory p.settings.lib_dir h.linker.lib_dir in
        let (handle, w1) = h.linker.dlopen p.world (build_module_path dir name) in
        elim handle [
          | none ↦ some (minus_one, record p { world = w1 })
          | some library ↦ run_engine library (record p { world = w1 })
        ]
  ]

  -- The connection of the backend is closed again.
  unfoldable pub close_backend : Process L P W → Process L P W
  unfolding codes
  close_backend p =
      let p1 : Process L P W =
        if persists p.settings (codes "ldap")
        then with_bound p (ldap_disconnect h.ldap_library (bound p))
        else p in
      if persists p1.settings (codes "sql")
      then with_link p1 (disconnect h.database (linked p1))
      else p1

  -- What main returns, with the state that it leaves; none where the process has ended before.
  unfoldable pub main : List Switch → W → Option (ℤ × Option (Process L P W))
  main switches w = elim (prepare switches w) [
    | stopped ↦ none
    | returned ret ↦ some (ret, none)
    | ready p ↦ elim (engine_load p) [
      | none ↦ none
      | some (ret, p1) ↦ some (ret, some (close_backend p1))
    ]
  ]
