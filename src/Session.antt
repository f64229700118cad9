-- ===== src/Session.antt =====
-- src/smf_session.c: the state of one mail session. The socket is left out, since the only one that
-- a session writes to is its client's; the id that is drawn for a new session is an argument.
use spmfilter.Base.{
  ℕ, Bool, true, false, Option, none, some, List, [], ◌∷◌, if◌then◌else◌, drop, Bytes, codes, equal,
  strcasestr,
}
use spmfilter.Dict.{Dict}
use spmfilter.Envelope.{Envelope, empty_envelope}

-- `SMFUserData_T`
pub record UserData : Type 0 where
  pub email : Bytes
  pub fields : Dict

pub record Session (M : Type 0) : Type 0 where
  pub envelope : Envelope M
  pub message_size : ℕ
  pub message_file : Option Bytes
  pub helo : Option Bytes
  pub xforward_addr : Option Bytes
  pub response_msg : Option Bytes
  pub id : Bytes
  pub local_users : List UserData

module _ {M : Type 0} where
  -- `smf_session_new`
  abbrev pub session_new : Bytes → Session M
  session_new sid = record {
    envelope = empty_envelope;
    message_size = 0;
    message_file = none;
    helo = none;
    xforward_addr = none;
    response_msg = none;
    id = sid;
    local_users = [];
  }

  unfoldable pub set_helo : Session M → Bytes → Session M
  set_helo s helo = record s { helo = some helo }

  unfoldable pub set_message_file : Session M → Bytes → Session M
  set_message_file s fp = record s { message_file = some fp }

  unfoldable pub set_xforward_addr : Session M → Bytes → Session M
  set_xforward_addr s xfwd = elim (strcasestr xfwd (codes "IPv6:")) [
    | some _ ↦ record s { xforward_addr = some (drop 5 xfwd) }
    | none ↦ record s { xforward_addr = some xfwd }
  ]

  unfoldable pub set_response_msg : Session M → Bytes → Session M
  set_response_msg s rmsg = record s { response_msg = some rmsg }

-- The walks over `session->local_users`.
is_local_in : List UserData → Bytes → Bool
is_local_in [] user = false
is_local_in (d ∷ ds) user =
    let later = is_local_in ds user in if equal d.email user then true else later

user_data_in : List UserData → Bytes → Option Dict
user_data_in [] user = none
user_data_in (d ∷ ds) user =
    let later = user_data_in ds user in if equal d.email user then some d.fields else later

module _ {M : Type 0} where
  unfoldable pub is_local : Session M → Bytes → Bool
  unfolding is_local_in
  is_local s user = is_local_in s.local_users user

  unfoldable pub get_user_data : Session M → Bytes → Option Dict
  unfolding user_data_in
  get_user_data s user = user_data_in s.local_users user

  unfoldable pub get_helo : Session M → Option Bytes
  get_helo s = s.helo

  unfoldable pub get_message_file : Session M → Option Bytes
  get_message_file s = s.message_file

  unfoldable pub get_xforward_addr : Session M → Option Bytes
  get_xforward_addr s = s.xforward_addr

  unfoldable pub get_response_msg : Session M → Option Bytes
  get_response_msg s = s.response_msg

  unfoldable pub get_envelope : Session M → Envelope M
  get_envelope s = s.envelope

  unfoldable pub get_id : Session M → Bytes
  get_id s = s.id
