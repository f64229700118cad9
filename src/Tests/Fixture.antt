-- ===== src/Tests/Fixture.antt =====
-- A file store, modules that succeed and fail, and a server's settings, for the examples.
use spmfilter.Base.{
  ℕ, false, Option, none, some, List, [], ◌∷◌, if◌then◌else◌, Bytes, codes, equal, ℤ, pos,
  minus_one,
}
use spmfilter.Settings.{Settings, settings_new}
use spmfilter.Session.{Session, session_new}
use spmfilter.System.{System}
use spmfilter.Modules.Process.{State}
use spmfilter.Smtpd.Host.{Host}

-- Files by their paths; the newest entry of a path counts.
abbrev pub Files : Type 0
Files = List (Bytes × Bytes)

abbrev pub file_at : Files → Bytes → Option Bytes
file_at [] path = none
file_at ((p, content) ∷ files) path = if equal p path then some content else file_at files path

abbrev runner_of : Bytes → Option (Settings → Session ℕ → Files → ℤ × Session ℕ × Files)
runner_of name =
    if equal name (codes "clean")
    then some (λ st s w. (pos 0, s, w))
    else if equal name (codes "reject")
    then some (λ st s w. (minus_one, s, w))
    else none

abbrev pub disk : System ℕ Files
disk = record {
  runner = runner_of;
  mtime = λ w p. none;
  is_file = λ w p. false;
  mkstemp = λ w template. some (template, (template, []) ∷ w);
  read_file = file_at;
  write_file = λ w p content. some ((p, content) ∷ w);
  unlink = λ w p. some w;
  rename = λ w old new. some w;
  message_from_file = λ w p only_header. (pos 0, 1, w);
  message_free = λ w m. w;
  headers = λ w m. [];
  set_header = λ w m h. w;
  to_string = λ w m. [];
  to_file = λ w m p. (pos 1, w);
  message_recipients = λ w m. [];
  ldap_query = λ w st q. (none, w);
  sql_query = λ w st q. (none, w);
  overread = λ format addr. none;
  null = 0;
  smtp_deliver = λ w e tls path. (pos 250, w);
}

abbrev pub mx : Host
mx = record {
  hostname = codes "mx";
  sid = λ n. codes "A1";
  message_id = codes "<1@mx>";
  date_line = codes "Date: Thu, 1 Jan 1970 00:00:00 +0000";
}

abbrev pub with_modules : List Bytes → Settings
with_modules names = record settings_new {
  modules = names;
  module_fail = pos 2;
  queue_dir = some (codes "/q");
}

abbrev pub ready : State ℕ Files
ready = record { session = session_new (codes "A1"); world = []; out = [] }
