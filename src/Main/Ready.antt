-- ===== src/Main/Ready.antt =====
-- In which state main comes to its engine.
use spmfilter.Base.{◌≡◌, ◌⊎◌, true, false, Option, none, some, List, Bytes, codes, ℤ, pos}
use spmfilter.Settings.{Settings, settings_new}
use spmfilter.Settings.Check.{parse_config}
use spmfilter.Settings.Checked.{IsChecked}
use spmfilter.Main.{
  Switch, Process, Host, Prepared, returned, stopped, ready, parse_options, persists, with_debug,
}
use spmfilter.Main.Kept.{SameBut}

-- What holds of the process where it goes on.
abbrev ReadyWith : {L P W : Type 0} → (Process L P W → Type 0) → Prepared L P W → Type 0
ReadyWith Q (returned ret) = Unit
ReadyWith Q stopped = Unit
ReadyWith Q (ready p) = Q p

module _ {L P C H W : Type 0} (h : Host L P C H W) where
  -- The queue directory of the settings is a directory and can be written.
  abbrev pub HasQueueDir : Process L P W → Type 0
  HasQueueDir p =
      (w : W) × (let (found, w1) = h.stat w p.settings.queue_dir in
        (found ≡ some true) × ((h.writable w1 p.settings.queue_dir).0 ≡ true))

  -- A pool is held, if it is to be kept.
  abbrev HoldsPool : Settings → Process L P W → Type 0
  HoldsPool st q = (persists st (codes "sql") ≡ false) ⊎ ((pool : P) × (q.sql ≡ some (some pool)))

  abbrev HoldsHandle : Settings → Process L P W → Type 0
  HoldsHandle st q = (persists st (codes "ldap") ≡ false) ⊎ ((ld : L) × (q.ldap ≡ some ld))

  abbrev AfterSql : Process L P W → Settings → Process L P W → Type 0
  AfterSql p st q = HasQueueDir q × (SameBut st q.settings × ((q.ldap ≡ p.ldap) × HoldsPool st q))

  -- What main has before it loads the engine, for the settings that it connects with: the engine gets
  -- these settings, but for the name of an SQLite database, in which `~` may have been replaced.
  abbrev pub IsReady : Settings → Process L P W → Type 0
  IsReady st q = HasQueueDir q × (SameBut st q.settings × (HoldsHandle st q × HoldsPool st q))

  -- How main comes to its engine: by these options and this configuration.
  unfoldable pub IsStarted : List Switch → Process L P W → Type 0
  IsStarted switches q =
      (debugging : ℤ) × ((config_file : Option Bytes) × ((st : Settings) × ((parse_options switches
                (pos 0) none
              ≡ some (debugging, config_file))
            × ((parse_config h.contents settings_new config_file ≡ some (pos 0, st))
                × (IsChecked st × IsReady (with_debug h debugging st) q)))))
