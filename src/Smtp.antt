-- ===== src/Smtp.antt =====
-- `smf_smtp_deliver` of src/smf_smtp.c: what is handed to libesmtp, and the status that comes back. A
-- message is given by a file or by its text.
pub mod Delivery
pub mod Callbacks
pub mod Reported
use spmfilter.Base.{
  ◌+◌, ◌-◌, ◌/◌, ◌<◌, ◌⊎◌, inl, inr, Bool, not, Option, none, some, List, [], ◌∷◌, ◌++◌, ◌==◌,
  if◌then◌else◌, length, set, take, Bytes, codes, contains, ℤ, minus_one,
}
use spmfilter.Envelope.{Envelope}

pub data Content : Type 0 where
  from_file : Bytes → Content
  from_text : Bytes → Content

-- What a session of libesmtp is started with.
pub record Job : Type 0 where
  pub server : Bytes
  pub tls : ℤ
  pub login : Option (Bytes × Bytes)
  pub reverse_path : Bytes
  pub content : Content
  pub recipients : List Bytes

-- What libesmtp accepts, which files can be read, and the text of an object. `transfer` is
-- `smtp_start_session` with the status of the message, or with the text of the error.
pub record Esmtp (M W : Type 0) : Type 0 where
  pub set_reverse_path : Bytes → Bool
  pub set_message_str : Bytes → Bool
  pub add_recipient : Bytes → Bool
  pub opens : W → Bytes → Option Bytes
  pub to_string : W → M → Bytes
  pub transfer : W → Job → ((ℤ × Option Bytes) ⊎ Bytes) × W

-- `SMFSmtpStatus_T`
pub record Status : Type 0 where
  pub code : ℤ
  pub text : Option Bytes

unfoldable pub failed : Bytes → Status
failed text = record { code = minus_one; text = some text }

-- `strstr(env->nexthop,":")`, and port 25 by default.
unfoldable pub server_of : Bytes → Bytes
unfolding codes
server_of nexthop = if contains b':' nexthop then nexthop else nexthop ++ codes ":25"

unfoldable pub reverse_path_of : Option Bytes → Bytes
unfolding codes
reverse_path_of none = codes "<>"
reverse_path_of (some sender) = sender

-- The login is used if both its parts are set.
unfoldable pub login_of : Option Bytes → Option Bytes → Option (Bytes × Bytes)
login_of (some user) (some pass) = some (user, pass)
login_of _ _ = none

unfoldable pub status_of : (ℤ × Option Bytes) ⊎ Bytes → Status
unfolding codes
status_of (inl (code, text)) = record { code = code; text = text }
status_of (inr problem) = failed (codes "failed to initialize smtp session: " ++ problem)

module _ {M W : Type 0} (lib : Esmtp M W) where
  -- The recipients that `smtp_add_recipient` takes; the others are only logged.
  unfoldable pub accepted : List Bytes → List Bytes
  accepted [] = []
  accepted (r ∷ rs) = if lib.add_recipient r then r ∷ accepted rs else accepted rs

  -- The content, or the text of the error.
  unfoldable pub content_of : W → Envelope M → Option Bytes → Bytes ⊎ Content
  unfolding codes
  content_of w env (some path) = elim (lib.opens w path) [
    | some problem ↦ inl (codes "unable to open file: " ++ problem)
    | none ↦ inr (from_file path)
  ]
  content_of w env none = elim env.message [
    | none ↦ inl (codes "no message content provided")
    | some m ↦
        if lib.set_message_str (lib.to_string w m)
        then inr (from_text (lib.to_string w m))
        else inl (codes "failed to create message object")
  ]

  -- The steps in front of `smtp_start_session`, for the next hop of the envelope.
  unfoldable pub prepare : Option Bytes → W → Envelope M → ℤ → Option Bytes → Bytes ⊎ Job
  unfolding codes
  prepare none w env tls msg_file = inl (codes "invalid smtp host")
  prepare (some nexthop) w env tls msg_file =
      let path = reverse_path_of env.sender in
      if not (lib.set_reverse_path path)
      then inl (codes "failed to set reverse_path")
      else elim (content_of w env msg_file) [
        | inl problem ↦ inl problem
        | inr content ↦
            if length env.recipients == 0
            then inl (codes "no recipients provided")
            else inr (record {
              server = server_of nexthop;
              tls = tls;
              login = login_of env.auth_user env.auth_pass;
              reverse_path = path;
              content = content;
              recipients = accepted env.recipients;
            })
      ]

  -- What is started, and the status for its outcome.
  unfoldable pub run_job : W → Bytes ⊎ Job → Status × W
  run_job w (inl problem) = (failed problem, w)
  run_job w (inr job) = let (outcome, w') = lib.transfer w job in (status_of outcome, w')

  unfoldable pub deliver_message : W → Envelope M → ℤ → Option Bytes → Status × W
  deliver_message w env tls msg_file = run_job w (prepare env.nexthop w env tls msg_file)
