-- ===== src/Tests/Engines.antt =====
-- The pipe engine on one message, a database whose only host does not answer, and a query.
use spmfilter.Base.{
  ℕ, ◌+◌, ◌≡◌, refl, inl, true, false, none, some, [], ◌∷◌, if◌then◌else◌, All, codes, is_space,
  strncasecmp_eq, pos, minus_one, eq_ℤ, printf_s,
}
use spmfilter.Settings.{Settings, settings_new}
use spmfilter.Settings.Facility.{strcasecmp_eq}
use spmfilter.Modules.Contract.{Settled}
use spmfilter.Pipe.{copied, load}
use spmfilter.Pipe.Output.{load-Settled}
use spmfilter.Lookup.Dsn.{get_dsn, dsn_host, dsn_name}
use spmfilter.Lookup.Pool.{
  Zdb, Link, disconnect, start_pool, start_dsn, failover, connect, obtain, tries,
}
use spmfilter.Lookup.Failover.{HasFailed, connect-HasFailed}
use spmfilter.Lookup.Query.{Execute, query, active, fetch, release, dicts_of, row_dict}
use spmfilter.Lookup.Query.Rows.{IsAnswer, query-IsAnswer}
use spmfilter.Dict.{new, dict_set}
use spmfilter.Core.Strip.{strstrip}
use spmfilter.Envelope.{Envelope}
use spmfilter.Smtp.{Esmtp, deliver_message}
use spmfilter.Smtp.Delivery.{can_start, job_of, outcome_code, deliver_message-code}
use spmfilter.Tests.Fixture.{disk, with_modules}

load-Settled_example :
    Settled []
      (load disk (with_modules (codes "reject" ∷ [])) (codes "A1") (copied (codes "Hi\n") ∷ []) [])
load-Settled_example =
    load-Settled disk (with_modules (codes "reject" ∷ [])) (codes "A1") (copied (codes "Hi\n") ∷ [])
      []

-- No pool is ever made; the world counts the attempts.
abbrev pub down : Zdb ℕ ℕ ℕ
down = record {
  pool_new = λ w text. (none, w + 1);
  initial_connections = λ w p. pos 5;
  set_initial_connections = λ w p n. w;
  set_max_connections = λ w p n. w;
  set_reaper = λ w p n. w;
  set_abort_handler = λ w p. w;
  pool_start = λ w p. w;
  pool_free = λ w p. w;
  get_connection = λ w p. (none, w);
  ping = λ w c. (false, w);
  close = λ w c. w;
  reap = λ w p. w;
}

abbrev one_host : Settings
one_host = record settings_new {
  backend_connection = some (codes "failover");
  sql_driver = some (codes "mysql");
  sql_host = codes "db" ∷ [];
}

abbrev link : ℕ → Link ℕ ℕ
link w = record { settings = one_host; connection = none; world = w }

connect-fails : connect down 0 none (link 0) ≡ some (minus_one, link 2)
unfolding settings_new dsn_name connect failover start_dsn start_pool disconnect get_dsn dsn_host
    strcasecmp_eq eq_ℤ codes strncasecmp_eq printf_s
connect-fails = refl

connect-HasFailed_example : All (HasFailed down 0 none) (codes "db" ∷ [])
connect-HasFailed_example = connect-HasFailed down 0 none (link 0) (link 2) connect-fails

-- A pool whose connections answer with one row, and the link that has it.
abbrev up : Zdb ℕ ℕ ℕ
up = record down { get_connection = λ w p. (some w, w + 1); ping = λ w c. (true, w) }

abbrev one_row : Execute ℕ ℕ
one_row w con text =
    (some ((record { name = codes "uid"; value = some (codes "7") } ∷ []) ∷ []), w + 1)

abbrev linked : ℕ → Link ℕ ℕ
linked w = record { settings = one_host; connection = some (some 0); world = w }

query-answers :
    query up one_row 0 none (linked 0) (codes " q ")
    ≡ some (some (dict_set new (codes "uid") (codes "7") ∷ []), link 2)
unfolding settings_new query active fetch release disconnect obtain tries dicts_of row_dict strstrip
    is_space codes eq_ℤ
query-answers = refl

query-IsAnswer_example :
    IsAnswer up one_row 0 none
      (strstrip (codes " q "))
      (dict_set new (codes "uid") (codes "7") ∷ [])
      (link 2)
query-IsAnswer_example =
    query-IsAnswer up one_row 0 none (linked 0) (link 2) (codes " q ")
      (dict_set new (codes "uid") (codes "7") ∷ []) query-answers

abbrev postman : Esmtp ℕ ℕ
postman = record {
  set_reverse_path = λ path. true;
  set_message_str = λ text. true;
  add_recipient = λ r. true;
  opens = λ w path. none;
  to_string = λ w m. [];
  transfer = λ w job. (inl (pos 250, none), w + 1);
}

abbrev letter : Envelope ℕ
letter = record {
  recipients = codes "a@b" ∷ [];
  sender = none;
  auth_user = none;
  auth_pass = none;
  nexthop = some (codes "mx");
  message = none;
}

deliver_message-code_example :
    let r = deliver_message postman 0 letter (pos 0) (some (codes "/q/1")) in
    let sent =
      postman.transfer 0
        (job_of postman (some (codes "mx")) 0 letter (pos 0) (some (codes "/q/1"))) in
    (r.0.code ≡ (
      if can_start postman (some (codes "mx")) 0 letter (some (codes "/q/1"))
      then outcome_code postman sent.0
      else minus_one))
    × (r.1 ≡ (
        if can_start postman (some (codes "mx")) 0 letter (some (codes "/q/1")) then sent.1 else 0))
deliver_message-code_example = deliver_message-code postman 0 letter (pos 0) (some (codes "/q/1"))
