-- ===== src/Settings/Kept.antt =====
-- What `smf_settings_parse_config` leaves true of the settings, whatever the file holds.
use spmfilter.Base.{
  lt_ℤ, ℕ, zero, suc, ◌+◌, ◌-◌, ◌≡◌, refl, true, not, ◌&&◌, Option, none, some, [], ◌∷◌, ◌++◌, ◌==◌,
  if◌then◌else◌, length, get_or, Bytes, codes, equal, ℤ, pos, eq_ℤ,
}
use spmfilter.Core.Strip.{strstrip}
use spmfilter.Modules.Codes.{if_both}
use mathlib.Core.Path.{subst}
use mathlib.Core.Option.{some_inj}
use spmfilter.Settings.{Settings, settings_new}
use spmfilter.Dict.Laws.{new-IsValid}
use spmfilter.Settings.Line.{
  LineStatus, line_error, line_empty, line_comment, line_section, line_value, parse_line,
}
use spmfilter.Settings.Parse.{
  Parser, parser_new, Outcome, done, undefined, running, is_own_section, store_value, with_settings,
  restart, obey, handle_line, turn, fgets, line_room, parse_lines,
}
use spmfilter.Settings.Check.{
  child_limit, is_some, is_text, is_scope, default, default_port, sql_checks, ldap_checks,
  backend_checks, check_config, finish_config, parse_file, config_path, parse_config,
}
use spmfilter.Settings.Ends.{next_lines, parse_lines-suc}
use spmfilter.Settings.Values.{known_connection}
use spmfilter.Settings.Check.{
  child_limit, is_some, is_text, is_scope, default, default_port, sql_checks, ldap_checks,
  backend_checks, check_config, finish_config, parse_file, config_path, parse_config,
}
use spmfilter.Settings.Sane.{IsSane, SaneIf, allowed}
use spmfilter.Settings.Sane.Sections.{set_config_value-SaneIf, config_group-KeepsSane}

default_port-IsSane : (d : Bytes) (n : ℕ) (st : Settings) → IsSane st → IsSane (default_port d n st)
unfolding default_port IsSane
default_port-IsSane d n st c =
    if_both IsSane (is_text d st.sql_driver && eq_ℤ st.sql_port (pos 0)) _ _ c c

abbrev ReturnsSane : ℤ × Settings → Type 0
ReturnsSane r = IsSane r.1

sql_checks-ReturnsSane : (st : Settings) → IsSane st → ReturnsSane (sql_checks st)
unfolding sql_checks
sql_checks-ReturnsSane st c = if_both ReturnsSane (not (is_some st.sql_driver)) _ _ c (
    if_both ReturnsSane (not (is_some st.sql_name)) _ _ c (
      if_both ReturnsSane _ _ _ c (
        default_port-IsSane (codes "postgresql") 5432 (default_port (codes "mysql") 3306 st)
          (default_port-IsSane (codes "mysql") 3306 st c))))

ldap_checks-ReturnsSane : (st : Settings) → IsSane st → ReturnsSane (ldap_checks st)
unfolding ldap_checks IsSane
ldap_checks-ReturnsSane st c =
    if_both ReturnsSane (not (is_some st.ldap_scope)) _ _ c
      (if_both ReturnsSane (is_scope st.ldap_scope) _ _ c c)

backend_checks-ReturnsSane : (st : Settings) → IsSane st → ReturnsSane (backend_checks st)
unfolding backend_checks
backend_checks-ReturnsSane st c =
    let r : ℤ × Settings =
      if is_text (codes "sql") st.backend then sql_checks st else (pos 0, st) in
    let k : ReturnsSane r =
      if_both ReturnsSane (is_text (codes "sql") st.backend) _ _ (sql_checks-ReturnsSane st c) c in
    if_both ReturnsSane (eq_ℤ r.0 (pos 0)) _ _
      (if_both ReturnsSane (is_text (codes "ldap") r.1.backend) _ _ (ldap_checks-ReturnsSane r.1 k)
        k)
      k

default_connection :
    (o : Option Bytes)
    → allowed known_connection o ≡ true
    → allowed known_connection (default (codes "failover") o) ≡ true
unfolding known_connection equal codes
default_connection none h = refl
default_connection (some v) h = h

-- The checks set a default only where there is nothing yet.
pub check_config-ReturnsSane : (st : Settings) → IsSane st → ReturnsSane (check_config st)
unfolding check_config IsSane
check_config-ReturnsSane st c =
    let st2 : Settings = record st {
      queue_dir = default (codes "/var/spool/spmfilter") st.queue_dir;
      backend_connection = default (codes "failover") st.backend_connection;
    } in
    let r = backend_checks st2 in
    let k =
      backend_checks-ReturnsSane st2 (
        c.0,
        (c.1.0, (c.1.1.0, (default_connection st.backend_connection c.1.1.1.0, c.1.1.1.1))),
      ) in
    if_both ReturnsSane (not (is_some st.engine)) _ _ c (
      if_both ReturnsSane (lt_ℤ (pos child_limit) st.max_childs) _ _ c
        (if_both ReturnsSane (eq_ℤ r.0 (pos 0)) _ _ k k))

store_value-SaneIf :
    (st : Settings) (section key v : Bytes) → IsSane st → SaneIf (store_value st section key v)
unfolding store_value
store_value-SaneIf st section key v c =
    if_both SaneIf (is_own_section section) _ _ (set_config_value-SaneIf st section key v c)
      (config_group-KeepsSane section key st v c)

abbrev ParsesSane : Option Parser → Type 0
ParsesSane none = Unit
ParsesSane (some p) = IsSane p.settings

with_settings-ParsesSane :
    (p : Parser) (o : Option Settings) → SaneIf o → ParsesSane (with_settings p o)
with_settings-ParsesSane p none c = tt
with_settings-ParsesSane p (some st) c = c

restart-ParsesSane : (o : Option Parser) → ParsesSane o → ParsesSane (restart o)
restart-ParsesSane none c = tt
restart-ParsesSane (some p) c = c

obey-ParsesSane : (p : Parser) (l : LineStatus) → IsSane p.settings → ParsesSane (obey p l)
unfolding obey
obey-ParsesSane p line_error c = c
obey-ParsesSane p line_empty c = c
obey-ParsesSane p line_comment c = c
obey-ParsesSane p (line_section b) c = c
obey-ParsesSane p (line_value key v) c =
    if_both ParsesSane p.in_section _ _
      (with_settings-ParsesSane p _
        (store_value-SaneIf p.settings p.section (strstrip key) (strstrip v) c))
      tt

handle_line-ParsesSane :
    (p : Parser) (line : Bytes) → IsSane p.settings → ParsesSane (handle_line p line)
unfolding handle_line
handle_line-ParsesSane p line c = obey-ParsesSane p (parse_line line) c

turn-ParsesSane : (p : Parser) (line : Bytes) → IsSane p.settings → ParsesSane (turn p line)
unfolding turn
turn-ParsesSane p line c =
    let len = length line - 1 in
    if_both ParsesSane (len == 0) _ _ c (
      if_both ParsesSane (get_or line len 0 == b'\\') _ _ c
        (restart-ParsesSane (handle_line p line) (handle_line-ParsesSane p line c)))

abbrev EndsSane : Outcome → Type 0
EndsSane (done p) = IsSane p.settings
EndsSane undefined = Unit
EndsSane running = Unit

next_lines-EndsSane :
    (f : ℕ) (o : Option Parser) (rest : Bytes)
    → ParsesSane o
    → ((q : Parser) (s : Bytes) → IsSane q.settings → EndsSane (parse_lines f q s))
    → EndsSane (next_lines f o rest)
unfolding next_lines
next_lines-EndsSane f none rest c ih = tt
next_lines-EndsSane f (some q) rest c ih = ih q rest c

parse_lines-EndsSane :
    (f : ℕ) (p : Parser) (s : Bytes) → IsSane p.settings → EndsSane (parse_lines f p s)
unfolding parse_lines
parse_lines-EndsSane zero p s c = tt
parse_lines-EndsSane (suc f) p [] c = c
parse_lines-EndsSane (suc f) p (x ∷ xs) c =
    let line = p.kept ++ (fgets (line_room p) (x ∷ xs)).0 in
    rw (parse_lines-suc f p x xs) (
      next_lines-EndsSane f (turn p line) (fgets (line_room p) (x ∷ xs)).1
        (turn-ParsesSane p line c) (parse_lines-EndsSane f))

finish_config-ReturnsSane :
    (o : Outcome) (r : ℤ × Settings) → EndsSane o → finish_config o ≡ some r → ReturnsSane r
unfolding finish_config
finish_config-ReturnsSane (done p) r c e =
    subst ReturnsSane (some_inj.0 e) (check_config-ReturnsSane p.settings c)
finish_config-ReturnsSane undefined r c e = absurd (cc)
finish_config-ReturnsSane running r c e = absurd (cc)

parse_file-ReturnsSane :
    (st : Settings) (file : Option Bytes) (r : ℤ × Settings)
    → IsSane st
    → parse_file st file ≡ some r
    → ReturnsSane r
unfolding parse_file parser_new
parse_file-ReturnsSane st none r c e = subst ReturnsSane (some_inj.0 e) c
parse_file-ReturnsSane st (some s) r c e =
    finish_config-ReturnsSane _ r (parse_lines-EndsSane (length s + 1) (parser_new st) s c) e

settings_new-IsSane : (path : Bytes) → IsSane (record settings_new { config_file = some path })
unfolding IsSane settings_new eq_ℤ
settings_new-IsSane path = (refl, (refl, (refl, (refl, (refl, (new-IsValid, new-IsValid))))))

-- Where `smf_settings_parse_config` returns on new settings, with 0 or with -1, and no field is left
-- with a pointer to memory that is freed, module_fail is 1, 2 or 3 and tls_enable 0, 1 or 2, a backend,
-- a driver and a way to choose among connections are among the known ones or not set, and the reply
-- codes and the groups are well-formed dictionaries.
parse_config-IsSane :
    (contents : Bytes → Option Bytes) (file : Option Bytes) (r : ℤ) (t : Settings)
    → parse_config contents settings_new file ≡ some (r, t)
    → IsSane t
unfolding parse_config
parse_config-IsSane contents file r t e =
    parse_file-ReturnsSane _ (contents (config_path file)) (r, t)
      (settings_new-IsSane (config_path file)) e
