-- ===== src/Smtp/Callbacks.antt =====
-- The functions of src/smf_smtp.c that libesmtp calls back.
use spmfilter.Base.{
  ◌≡◌, Bool, true, false, Option, none, some, List, [], ◌∷◌, if◌then◌else◌, Bytes, codes, ℤ, pos,
  arith,
}
use spmfilter.Envelope.{Envelope}

-- The flags of a field that `smf_smtp_authinteract` is asked for.
pub record Request : Type 0 where
  pub is_user : Bool
  pub is_pass : Bool

-- Whether every field is known, and the answers up to the first that is not.
unfoldable pub authinteract : {M : Type 0} → Envelope M → List Request → Bool × List (Option Bytes)
authinteract env [] = (true, [])
authinteract env (r ∷ rest) =
    let (done, answers) = authinteract env rest in
    if r.is_user
    then (done, env.auth_user ∷ answers)
    else if r.is_pass
    then (done, env.auth_pass ∷ answers)
    else (false, [])

-- What OpenSSL finds wrong with a certificate; the codes are those of its headers.
pub data Problem : Type 0 where
  unable_to_get_issuer_cert : Problem
  unable_to_get_crl : Problem
  unable_to_decrypt_cert_signature : Problem
  unable_to_decrypt_crl_signature : Problem
  unable_to_decode_issuer_public_key : Problem
  cert_signature_failure : Problem
  crl_signature_failure : Problem
  cert_not_yet_valid : Problem
  cert_has_expired : Problem
  crl_not_yet_valid : Problem
  crl_has_expired : Problem
  error_in_cert_not_before_field : Problem
  error_in_cert_not_after_field : Problem
  error_in_crl_last_update_field : Problem
  error_in_crl_next_update_field : Problem
  out_of_mem : Problem
  depth_zero_self_signed_cert : Problem
  self_signed_cert_in_chain : Problem
  unable_to_get_issuer_cert_locally : Problem
  unable_to_verify_leaf_signature : Problem
  cert_chain_too_long : Problem
  cert_revoked : Problem
  invalid_ca : Problem
  path_length_exceeded : Problem
  invalid_purpose : Problem
  cert_untrusted : Problem
  cert_rejected : Problem
  other_problem : ℤ → Problem

unfoldable pub problem_text : Problem → Bytes
unfolding codes
problem_text unable_to_get_issuer_cert = codes "X509_V_ERR_UNABLE_TO_GET_ISSUER_CERT"
problem_text unable_to_get_crl = codes "X509_V_ERR_UNABLE_TO_GET_CRL"
problem_text unable_to_decrypt_cert_signature = codes "X509_V_ERR_UNABLE_TO_DECRYPT_CERT_SIGNATURE"
problem_text unable_to_decrypt_crl_signature = codes "X509_V_ERR_UNABLE_TO_DECRYPT_CRL_SIGNATURE"
problem_text unable_to_decode_issuer_public_key =
    codes "X509_V_ERR_UNABLE_TO_DECODE_ISSUER_PUBLIC_KEY"
problem_text cert_signature_failure = codes "X509_V_ERR_CERT_SIGNATURE_FAILURE"
problem_text crl_signature_failure = codes "X509_V_ERR_CRL_SIGNATURE_FAILURE"
problem_text cert_not_yet_valid = codes "X509_V_ERR_CERT_NOT_YET_VALID"
problem_text cert_has_expired = codes "X509_V_ERR_CERT_HAS_EXPIRED"
problem_text crl_not_yet_valid = codes "X509_V_ERR_CRL_NOT_YET_VALID"
problem_text crl_has_expired = codes "X509_V_ERR_CRL_HAS_EXPIRED"
problem_text error_in_cert_not_before_field = codes "X509_V_ERR_ERROR_IN_CERT_NOT_BEFORE_FIELD"
problem_text error_in_cert_not_after_field = codes "X509_V_ERR_ERROR_IN_CERT_NOT_AFTER_FIELD"
problem_text error_in_crl_last_update_field = codes "X509_V_ERR_ERROR_IN_CRL_LAST_UPDATE_FIELD"
problem_text error_in_crl_next_update_field = codes "X509_V_ERR_ERROR_IN_CRL_NEXT_UPDATE_FIELD"
problem_text out_of_mem = codes "X509_V_ERR_OUT_OF_MEM"
problem_text depth_zero_self_signed_cert = codes "X509_V_ERR_DEPTH_ZERO_SELF_SIGNED_CERT"
problem_text self_signed_cert_in_chain = codes "X509_V_ERR_SELF_SIGNED_CERT_IN_CHAIN"
problem_text unable_to_get_issuer_cert_locally =
    codes "X509_V_ERR_UNABLE_TO_GET_ISSUER_CERT_LOCALLY"
problem_text unable_to_verify_leaf_signature = codes "X509_V_ERR_UNABLE_TO_VERIFY_LEAF_SIGNATURE"
problem_text cert_chain_too_long = codes "X509_V_ERR_CERT_CHAIN_TOO_LONG"
problem_text cert_revoked = codes "X509_V_ERR_CERT_REVOKED"
problem_text invalid_ca = codes "X509_V_ERR_INVALID_CA"
problem_text path_length_exceeded = codes "X509_V_ERR_PATH_LENGTH_EXCEEDED"
problem_text invalid_purpose = codes "X509_V_ERR_INVALID_PURPOSE"
problem_text cert_untrusted = codes "X509_V_ERR_CERT_UNTRUSTED"
problem_text cert_rejected = codes "X509_V_ERR_CERT_REJECTED"
problem_text (other_problem code) = codes "rare error"

-- The problem is accepted, and its text is logged.
unfoldable pub handle_invalid_peer_certificate : Problem → ℤ × Bytes
handle_invalid_peer_certificate vfy_result = (pos 1, problem_text vfy_result)

-- The events of libesmtp.
pub data Event : Type 0 where
  connected : Event
  mail_status : Event
  rcpt_status : Event
  message_data : Event
  message_sent : Event
  disconnected : Event
  no_starttls : Event
  weak_cipher : ℤ → Event
  starttls_ok : Event
  invalid_peer_certificate : Problem → Event
  no_peer_certificate : Event
  wrong_peer_certificate : Event
  no_client_certificate : Event
  other_event : ℤ → Event

-- What `smf_smtp_event_cb` sets the flag `ok` of the event to; none for an event without one.
unfoldable pub event_cb : Event → Option ℤ
event_cb (weak_cipher bits) = some (pos 1)
event_cb (invalid_peer_certificate vfy_result) = some (handle_invalid_peer_certificate vfy_result).0
event_cb no_peer_certificate = some (pos 1)
event_cb wrong_peer_certificate = some (pos 1)
event_cb no_client_certificate = some (pos 1)
event_cb _ = none

-- The events in which libesmtp asks whether to go on.
unfoldable pub is_question : Event → Bool
is_question (weak_cipher bits) = true
is_question (invalid_peer_certificate vfy_result) = true
is_question no_peer_certificate = true
is_question wrong_peer_certificate = true
is_question no_client_certificate = true
is_question _ = false

-- Whatever is wrong with the cipher or a certificate, the session goes on.
pub event_cb_accepts : (e : Event) → is_question e ≡ true → event_cb e ≡ some (pos 1)
unfolding event_cb is_question handle_invalid_peer_certificate
event_cb_accepts e h = ground arith
