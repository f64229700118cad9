-- ===== src/Nexthop.antt =====
-- src/smf_nexthop.c: the delivery of a message that the queue has processed.
use spmfilter.Base.{
  none, some, List, [], ◌∷◌, if◌then◌else◌, Bytes, codes, ℤ, pos, minus_one, eq_ℤ, positive,
}
use spmfilter.Envelope.{Envelope, set_sender, add_rcpt, set_nexthop}
use spmfilter.Settings.{Settings}
use spmfilter.Session.{Session}
use spmfilter.System.{System}

-- What `smf_nexthop_find` returns: NULL, or one of the two functions.
pub data NexthopFunction : Type 0 where
  no_nexthop : NexthopFunction
  file_delivery : Bytes → NexthopFunction
  smtp_delivery : Bytes → NexthopFunction

-- `if (env->sender == NULL) smf_envelope_set_sender(env, "<>")`
unfoldable pub default_sender : {M : Type 0} → Envelope M → Envelope M
default_sender e = elim e.sender [ none ↦ set_sender e (codes "<>") | some _ ↦ e ]

-- `if (env->nexthop == NULL) smf_envelope_set_nexthop(env, settings->nexthop)`
unfoldable pub default_nexthop : {M : Type 0} → Envelope M → Bytes → Envelope M
default_nexthop e hop = elim e.nexthop [ none ↦ set_nexthop e hop | some _ ↦ e ]

module _ {M W : Type 0} (sys : System M W) where
  unfoldable pub nexthop_find : Settings → W → NexthopFunction
  nexthop_find st w = elim st.nexthop [
    | none ↦ no_nexthop
    | some hop ↦ if sys.is_file w hop then file_delivery hop else smtp_delivery hop
  ]

  -- The loop of `copy_recipients`.
  unfoldable pub add_rcpts : Envelope M → List Bytes → Envelope M
  add_rcpts e [] = e
  add_rcpts e (a ∷ rest) = add_rcpts (add_rcpt e a) rest

  -- The recipients of the message, where the envelope has none.
  unfoldable pub copy_recipients : W → Envelope M → Envelope M
  copy_recipients w e = elim e.recipients [
    | [] ↦ elim e.message [ none ↦ e | some m ↦ add_rcpts e (sys.message_recipients w m) ]
    | _ ∷ _ ↦ e
  ]

  -- `smtp_delivery_nexthop`: the code, the envelope and the world.
  unfoldable pub smtp_delivery_nexthop : Settings → Bytes → Session M → W → ℤ × Session M × W
  smtp_delivery_nexthop st hop s w =
      let e = copy_recipients w (default_sender s.envelope) in
      elim e.recipients [
        | [] ↦ (minus_one, record s { envelope = e }, w)
        | _ ∷ _ ↦
            let e' = default_nexthop e hop in
            let (code, w') = sys.smtp_deliver w e' st.tls s.message_file in
            (if eq_ℤ code (pos 250) then pos 0 else minus_one, record s { envelope = e' }, w')
      ]

  -- `file_delivery_nexthop`: the code and the world.
  unfoldable pub file_delivery_nexthop : Bytes → Session M → W → ℤ × W
  file_delivery_nexthop hop s w = elim s.message_file [
    | some path ↦ elim (sys.read_file w path) [
      | none ↦ (minus_one, w)
      | some content ↦ elim (sys.write_file w hop content) [
        | none ↦ (minus_one, w)
        | some w' ↦ (pos 0, w')
      ]
    ]
    | none ↦ elim s.envelope.message [
      | none ↦ (minus_one, w)
      | some m ↦ let (n, w') = sys.to_file w m hop in (if positive n then pos 0 else minus_one, w')
    ]
  ]
