-- ===== src/Smtp/Delivery.antt =====
-- When `smf_smtp_deliver` starts a session, and what it returns.
use spmfilter.Base.{
  ◌≡◌, refl, ◌⊎◌, inl, inr, Bool, true, false, not, ◌&&◌, Option, none, some, [], ◌==◌,
  if◌then◌else◌, Bool-cases, Option-cases, length, Bytes, ℤ, minus_one,
}
use spmfilter.Envelope.{Envelope}
use spmfilter.Smtp.{
  status_of, Content, from_file, from_text, Job, Esmtp, failed, server_of, reverse_path_of,
  login_of, accepted, content_of, prepare, run_job, deliver_message,
}

module _ {M W : Type 0} (lib : Esmtp M W) where
  -- A file that opens, or else a message whose text is taken.
  unfoldable pub has_content : W → Envelope M → Option Bytes → Bool
  has_content w env (some path) = elim (lib.opens w path) [ some _ ↦ false | none ↦ true ]
  has_content w env none = elim env.message [
    | none ↦ false
    | some m ↦ lib.set_message_str (lib.to_string w m)
  ]

  unfoldable pub chosen_content : W → Envelope M → Option Bytes → Content
  chosen_content w env (some path) = from_file path
  chosen_content w env none = elim env.message [
    | none ↦ from_text []
    | some m ↦ from_text (lib.to_string w m)
  ]

  -- A next hop, a reverse path that is taken, a content and a recipient.
  unfoldable pub can_start : Option Bytes → W → Envelope M → Option Bytes → Bool
  can_start none w env msg_file = false
  can_start (some nexthop) w env msg_file =
      lib.set_reverse_path (reverse_path_of env.sender)
      && (has_content w env msg_file && not (length env.recipients == 0))

  unfoldable pub job_of : Option Bytes → W → Envelope M → ℤ → Option Bytes → Job
  job_of hop w env tls msg_file = record {
    server = elim hop [ none ↦ [] | some nexthop ↦ server_of nexthop ];
    tls = tls;
    login = login_of env.auth_user env.auth_pass;
    reverse_path = reverse_path_of env.sender;
    content = chosen_content w env msg_file;
    recipients = accepted lib env.recipients;
  }

  -- The code of an outcome of libesmtp.
  abbrev pub outcome_code : (ℤ × Option Bytes) ⊎ Bytes → ℤ
  outcome_code (inl (code, text)) = code
  outcome_code (inr problem) = minus_one

  code-status_of :
      (outcome : (ℤ × Option Bytes) ⊎ Bytes) → (status_of outcome).code ≡ outcome_code outcome
  unfolding status_of failed
  code-status_of (inl (code, text)) = refl
  code-status_of (inr problem) = refl

  content_of-has_content :
      (w : W) (env : Envelope M) (msg_file : Option Bytes)
      → ((has_content w env msg_file ≡ true)
          × (content_of lib w env msg_file ≡ inr (chosen_content w env msg_file)))
        ⊎ ((has_content w env msg_file ≡ false)
            × ((problem : Bytes) × (content_of lib w env msg_file ≡ inl problem)))
  unfolding content_of has_content chosen_content
  content_of-has_content w env (some path) = elim (Option-cases (lib.opens w path)) [
    | inl n ↦ rw (n, content_of, has_content, chosen_content) (inl (refl, refl))
    | inr (p, e) ↦ rw (e, content_of, has_content, chosen_content) (inr (refl, (_, refl)))
  ]
  content_of-has_content w env none = elim (Option-cases env.message) [
    | inl n ↦ rw (n, content_of, has_content, chosen_content) (inr (refl, (_, refl)))
    | inr (m, e) ↦ elim (Bool-cases (lib.set_message_str (lib.to_string w m))) [
      | inl y ↦ rw (e, y, content_of, has_content, chosen_content) (inl (refl, refl))
      | inr z ↦ rw (e, z, content_of, has_content, chosen_content) (inr (refl, (_, refl)))
    ]
  ]

  -- The job is prepared exactly if a session can be started.
  prepare-can_start :
      (hop : Option Bytes) (w : W) (env : Envelope M) (tls : ℤ) (msg_file : Option Bytes)
      → ((can_start hop w env msg_file ≡ true)
          × (prepare lib hop w env tls msg_file ≡ inr (job_of hop w env tls msg_file)))
        ⊎ ((can_start hop w env msg_file ≡ false)
            × ((problem : Bytes) × (prepare lib hop w env tls msg_file ≡ inl problem)))
  unfolding prepare can_start job_of
  prepare-can_start none w env tls msg_file = inr (refl, (_, refl))
  prepare-can_start (some hop) w env tls msg_file =
      elim (Bool-cases (lib.set_reverse_path (reverse_path_of env.sender))) [
        | inr z ↦ rw (z, prepare) (inr (refl, (_, refl)))
        | inl y ↦ elim (content_of-has_content w env msg_file) [
          | inr (h, (p, c)) ↦ rw (y, h, c, prepare) (inr (refl, (p, refl)))
          | inl (h, c) ↦ elim (Bool-cases (length env.recipients == 0)) [
            | inl z ↦ rw (y, h, c, z, prepare) (inr (refl, (_, refl)))
            | inr z ↦ rw (y, h, c, z, prepare) (inl (refl, refl))
          ]
        ]
      ]

  -- `smf_smtp_deliver` starts a session of libesmtp exactly if the envelope has a next hop and a
  -- recipient, its reverse path is taken, and there is a content; the session then has the next hop with
  -- its port, the sender or <>, the login if it is complete, the content and the recipients that are
  -- taken, and its code is returned, -1 where it does not start. In all other cases the code is -1 and
  -- nothing is sent.
  pub deliver_message-code :
      (w : W) (env : Envelope M) (tls : ℤ) (msg_file : Option Bytes)
      → let r = deliver_message lib w env tls msg_file in
        let sent = lib.transfer w (job_of env.nexthop w env tls msg_file) in
        (r.0.code
          ≡ (if can_start env.nexthop w env msg_file then outcome_code sent.0 else minus_one))
        × (r.1 ≡ (if can_start env.nexthop w env msg_file then sent.1 else w))
  unfolding deliver_message run_job failed
  deliver_message-code w env tls msg_file =
      elim (prepare-can_start env.nexthop w env tls msg_file) [
        | inl (c, p) ↦ rw (c, p) (code-status_of _, refl)
        | inr (c, (problem, p)) ↦ rw (c, p) (refl, refl)
      ]
