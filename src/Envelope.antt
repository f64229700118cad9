-- ===== src/Envelope.antt =====
-- src/smf_envelope.c: the envelope of a message. A NULL string is `none`; the list of recipients is
-- always there, since `smf_envelope_new` makes it. The message object is libcmime's.
use spmfilter.Base.{[], ◌∷◌, ◌++◌, List, Option, none, some, Bytes}
use spmfilter.Internal.Address.{strip_email_addr}

pub record Envelope (M : Type 0) : Type 0 where
  pub recipients : List Bytes
  pub sender : Option Bytes
  pub auth_user : Option Bytes
  pub auth_pass : Option Bytes
  pub nexthop : Option Bytes
  pub message : Option M

-- The loop over the recipients, for a callback on the data of its caller.
unfoldable pub foreach_loop : {W : Type 0} → (Bytes → W → W) → List Bytes → W → W
foreach_loop callback [] user_data = user_data
foreach_loop callback (s ∷ rest) user_data = foreach_loop callback rest (callback s user_data)

module _ {M : Type 0} where
  -- `smf_envelope_new`
  abbrev pub empty_envelope : Envelope M
  empty_envelope = record {
    recipients = [];
    sender = none;
    auth_user = none;
    auth_pass = none;
    nexthop = none;
    message = none;
  }

  unfoldable pub set_sender : Envelope M → Bytes → Envelope M
  set_sender e sender = record e { sender = some (strip_email_addr sender) }

  unfoldable pub add_rcpt : Envelope M → Bytes → Envelope M
  add_rcpt e rcpt = record e { recipients = e.recipients ++ strip_email_addr rcpt ∷ [] }

  unfoldable pub set_auth_user : Envelope M → Bytes → Envelope M
  set_auth_user e user = record e { auth_user = some user }

  unfoldable pub set_auth_pass : Envelope M → Bytes → Envelope M
  set_auth_pass e pass = record e { auth_pass = some pass }

  unfoldable pub set_nexthop : Envelope M → Bytes → Envelope M
  set_nexthop e nexthop = record e { nexthop = some nexthop }

  unfoldable pub set_message : Envelope M → M → Envelope M
  set_message e message = record e { message = some message }

  unfoldable pub foreach_rcpt : {W : Type 0} → Envelope M → (Bytes → W → W) → W → W
  foreach_rcpt e callback user_data = foreach_loop callback e.recipients user_data

  unfoldable pub get_sender : Envelope M → Option Bytes
  get_sender e = e.sender

  unfoldable pub get_auth_user : Envelope M → Option Bytes
  get_auth_user e = e.auth_user

  unfoldable pub get_auth_pass : Envelope M → Option Bytes
  get_auth_pass e = e.auth_pass

  unfoldable pub get_nexthop : Envelope M → Option Bytes
  get_nexthop e = e.nexthop

  unfoldable pub get_message : Envelope M → Option M
  get_message e = e.message
