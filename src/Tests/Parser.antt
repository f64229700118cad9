-- ===== src/Tests/Parser.antt =====
-- A configuration file and its lines.
use spmfilter.Base.{
  ◌≡◌, refl, ◌≢◌, Option, none, some, [], ◌∷◌, ◌++◌, arith, Bytes, codes, equal, is_space, contains,
  pos, eq_ℤ,
}
use spmfilter.Core.Strip.{strstrip}
use spmfilter.Settings.{Settings, settings_new}
use spmfilter.Settings.Strtol.{skip_spaces}
use spmfilter.Settings.Line.{
  line_value, until, from, nonempty, scan_quoted, scan_value, empty_quotes, parse_value, parse_line,
}
use spmfilter.Settings.Values.{set_config_value, set_key, global_keys, no_key}
use spmfilter.Settings.Parse.{
  parser_new, fgets, is_own_section, store_value, obey, handle_line, turn, parse_lines, running,
}
use spmfilter.Settings.Check.{
  is_text, backend_checks, check_config, finish_config, parse_file, config_path, parse_config,
}
use spmfilter.Settings.Ends.{parse_lines-running}
use spmfilter.Settings.Checked.{IsChecked, parse_config-IsChecked}
use spmfilter.Settings.Printed.{print_line, parse_line-print_line}

abbrev pub sample : Bytes → Option Bytes
sample path = some (codes "[global]\nengine=smtpd\n")

abbrev pub sample_settings : Settings
sample_settings = record settings_new {
  config_file = some (codes "/etc/spmfilter.conf");
  queue_dir = some (codes "/var/spool/spmfilter");
  engine = some (codes "smtpd");
  backend_connection = some (codes "failover");
  nexthop_fail_msg = some (codes "Requested action aborted: local error in processing");
}

pub sample-returns : parse_config sample settings_new none ≡ some (pos 0, sample_settings)
unfolding parse_config parse_file config_path finish_config parse_lines parser_new fgets turn
    handle_line obey parse_line parse_value until from nonempty skip_spaces scan_quoted scan_value
    empty_quotes strstrip is_space equal codes is_own_section store_value set_config_value set_key
    global_keys no_key check_config backend_checks is_text settings_new eq_ℤ
sample-returns = refl

parse_config-IsChecked_example : IsChecked sample_settings
parse_config-IsChecked_example =
    parse_config-IsChecked sample settings_new sample_settings none sample-returns

parse_lines-running_example : parse_lines 6 (parser_new settings_new) (codes "a\nb=c") ≢ running
unfolding codes parser_new
parse_lines-running_example =
    parse_lines-running 6 (parser_new settings_new) (codes "a\nb=c") (omega arith) (omega arith)

parse_line-print_line_example :
    parse_line (print_line (codes "engine") (codes "smtpd") ++ b'\n' ∷ [])
    ≡ line_value (codes "engine" ++ b' ' ∷ []) (codes "smtpd")
unfolding codes contains equal is_space
parse_line-print_line_example =
    parse_line-print_line (codes "engine") (codes "smtpd")
      (record {
        no_equals = refl;
        some_byte = refl;
        first_tight = refl;
        last_tight = refl;
        no_comment = refl;
        no_section = refl;
      })
      (record { no_quote = refl; not_empty = omega arith; not_quotes = refl })
