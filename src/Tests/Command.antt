-- ===== src/Tests/Command.antt =====
-- The command line `spmfilter -d`, with an engine and no backend.
use spmfilter.Base.{ℕ, ◌+◌, true, false, none, some, codes, pos}
use spmfilter.Modules.Load.{Linker}
use spmfilter.Main.{Engine, Process, Host, debug}
use spmfilter.Tests.Parser.{sample, sample_settings}
use spmfilter.Tests.Directory.{directory}
use spmfilter.Tests.Engines.{down}

abbrev linker : Linker ℕ (Engine ℕ ℕ ℕ) ℕ
linker = record {
  dlopen = λ w path. (some w, w + 1);
  dlsym = λ w handle. (some (λ p. some (pos 0, p)), w);
  dlclose = λ w handle. (true, w + 1);
  is_regular = λ w path. false;
  lib_dir = codes "/usr/lib/spmfilter";
}

abbrev host : Host ℕ ℕ ℕ ℕ ℕ
host = record {
  ldap_library = directory;
  database = down;
  linker = linker;
  random = 0;
  home = none;
  contents = sample;
  stat = λ w path. (some true, w + 1);
  writable = λ w path. (true, w + 1);
}

abbrev started : Process ℕ ℕ ℕ
started = record {
  settings = record sample_settings { debug = pos 1 };
  ldap = none;
  sql = none;
  world = 2;
}
