-- ===== src/Smtpd/Host.antt =====
-- What the server asks its host: names, random ids and the time.
use spmfilter.Base.{ℕ, Bytes}

pub record Host : Type 0 where
  -- `gethostname`
  pub hostname : Bytes
  -- `smf_internal_generate_sid`, for the sessions of a connection in turn.
  pub sid : ℕ → Bytes
  -- `smf_message_generate_message_id`
  pub message_id : Bytes
  -- `strftime` of the current time with the format of a Date header.
  pub date_line : Bytes
