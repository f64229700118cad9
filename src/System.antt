-- ===== src/System.antt =====
-- What the queue calls and does not implement: the loaded modules, libcmime's messages, the lookup
-- backends, libesmtp's delivery and the file system. `W` is the state that these share, and `M` is
-- a pointer to a message object that lives in it.
use spmfilter.Base.{Bool, List, Option, Bytes, ℤ, ℕ}
use spmfilter.Dict.{Dict}
use spmfilter.Envelope.{Envelope}
use spmfilter.Settings.{Settings}
use spmfilter.Session.{Session}

-- A header as `smf_header_get_name` and `smf_header_get_value` show it; a value may be NULL.
pub record Header : Type 0 where
  pub name : Bytes
  pub values : List (Option Bytes)

pub record System (M W : Type 0) : Type 0 where
  -- `dlsym(handle, "load")` of a module, or its callback: none if the symbol is not found.
  pub runner : Bytes → Option (Settings → Session M → W → ℤ × Session M × W)
  -- `stat(path)`: the time of the last change.
  pub mtime : W → Bytes → Option ℕ
  -- `lstat(path) == 0 && !S_ISDIR`
  pub is_file : W → Bytes → Bool
  -- `mkstemp(template)`: the new path.
  pub mkstemp : W → Bytes → Option (Bytes × W)
  pub read_file : W → Bytes → Option Bytes
  pub write_file : W → Bytes → Bytes → Option W
  pub unlink : W → Bytes → Option W
  pub rename : W → Bytes → Bytes → Option W
  -- `smf_message_from_file(&new, path, header_only)`: the return code and the new object.
  pub message_from_file : W → Bytes → Bool → ℤ × M × W
  pub message_free : W → M → W
  pub headers : W → M → List Header
  pub set_header : W → M → Bytes → W
  pub to_string : W → M → Bytes
  -- `smf_message_to_file`: the number of items written.
  pub to_file : W → M → Bytes → ℤ × W
  -- `smf_message_get_recipients`, as strings.
  pub message_recipients : W → M → List Bytes
  -- `smf_lookup_ldap_query` and `smf_lookup_sql_query`: none for NULL.
  pub ldap_query : W → Settings → Bytes → Option (List Dict) × W
  pub sql_query : W → Settings → Bytes → Option (List Dict) × W
  -- What `smf_core_expand_string` makes of a format and an address where it reads behind its buffer,
  -- which C leaves open: none where it fails.
  pub overread : Bytes → Bytes → Option Bytes
  -- What a NULL pointer to a message is for libcmime, which C leaves open too.
  pub null : M
  -- `smf_smtp_deliver`: the status code.
  pub smtp_deliver : W → Envelope M → ℤ → Option Bytes → ℤ × W
