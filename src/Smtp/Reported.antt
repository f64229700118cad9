-- ===== src/Smtp/Reported.antt =====
-- When the queue calls a message delivered to the next hop, with libesmtp behind the delivery.
use mathlib.Core.Path.{subst}
use spmfilter.Base.{
  ◌≡◌, refl, sym, ◌∙◌, inl, inr, true, false, ◌||◌, arith, Option, some, List, [], ◌∷◌, Bool-cases,
  if◌then◌else◌, Bytes, codes, ℤ, pos, minus_one, eq_ℤ, eq_ℤ_iff,
}
use spmfilter.Settings.{Settings}
use spmfilter.Session.{Session}
use spmfilter.Envelope.{Envelope}
use spmfilter.System.{System, Header}
use spmfilter.Nexthop.{
  NexthopFunction, smtp_delivery, default_sender, default_nexthop, nexthop_find, copy_recipients,
  smtp_delivery_nexthop,
}
use spmfilter.Users.{fetch_user_data}
use spmfilter.Modules.Headers.{copy_headers}
use spmfilter.Modules.Halting.{Halts, run_modules-Halts}
use spmfilter.Modules.Process.{
  State, ProcessQueue, LoopEnd, stopped, finished, deliver, finish, conclude, modules_process,
}
use spmfilter.Smtp.{Esmtp, deliver_message}
use spmfilter.Smtp.Delivery.{can_start, job_of, outcome_code, deliver_message-code}

-- The delivery of the queue is `smf_smtp_deliver`.
abbrev pub with_esmtp : {M W : Type 0} → System M W → Esmtp M W → System M W
with_esmtp sys lib = record sys {
  smtp_deliver = λ w e tls path. let r = deliver_message lib w e tls path in (r.0.code, r.1);
}

module _ {M W : Type 0} (sys : System M W) (lib : Esmtp M W) (st : Settings) where
  -- The envelope that is delivered.
  abbrev pub relayed : Bytes → Session M → W → Envelope M
  relayed hop s w =
      default_nexthop (copy_recipients (with_esmtp sys lib) w (default_sender s.envelope)) hop

  -- libesmtp could start for the envelope, has answered 250, and nothing has happened since.
  unfoldable pub IsTaken : Envelope M → Option Bytes → W → W → Type 0
  IsTaken e path w w1 =
      let sent = lib.transfer w (job_of lib e.nexthop w e st.tls path) in
      (can_start lib e.nexthop w e path ≡ true)
      × ((outcome_code lib sent.0 ≡ pos 250) × (w1 ≡ sent.1))

  deliver_message-IsTaken :
      (e : Envelope M) (path : Option Bytes) (w : W)
      → (deliver_message lib w e st.tls path).0.code ≡ pos 250
      → IsTaken e path w (deliver_message lib w e st.tls path).1
  unfolding IsTaken
  deliver_message-IsTaken e path w h =
      let (code, world) = deliver_message-code lib w e st.tls path in
      elim (Bool-cases (can_start lib e.nexthop w e path)) [
        | inl y ↦ (y, (sym (rw y at code) ∙ h, rw y at world))
        | inr n ↦ absurd (refused (sym (rw n at code) ∙ h))
      ]
    where
      refused : minus_one ≡ pos 250 → ⊥
      refused e = absurd (cc)

  refused : minus_one ≡ pos 0 → ⊥
  refused e = absurd (cc)

  if_recipients :
      (xs : List Bytes) (before s : Session M) (e : Envelope M) (w : W)
      → let sent = deliver_message lib w e st.tls s.message_file in
        let r : ℤ × Session M × W = elim xs [
          | [] ↦ (minus_one, before, w)
          | _ ∷ _ ↦ (
            if eq_ℤ sent.0.code (pos 250) then pos 0 else minus_one,
            record s { envelope = e },
            sent.1,
          )
        ] in
        r.0 ≡ pos 0 → IsTaken r.1.envelope r.1.message_file w r.2
  if_recipients [] before s e w h = absurd (refused h)
  if_recipients (x ∷ xs) before s e w h =
      let code = (deliver_message lib w e st.tls s.message_file).0.code in
      elim (Bool-cases (eq_ℤ code (pos 250))) [
        | inl y ↦ deliver_message-IsTaken e s.message_file w ((eq_ℤ_iff code (pos 250)).0 y)
        | inr n ↦ absurd (refused (rw n at h))
      ]

  -- A delivery that returns 0 has handed the message to the next hop.
  smtp_delivery-IsTaken :
      (hop : Bytes) (s : Session M) (w : W)
      → let r = smtp_delivery_nexthop (with_esmtp sys lib) st hop s w in
        r.0 ≡ pos 0 → IsTaken r.1.envelope r.1.message_file w r.2
  unfolding smtp_delivery_nexthop
  smtp_delivery-IsTaken hop s w h =
      let e : Envelope M = copy_recipients (with_esmtp sys lib) w (default_sender s.envelope) in
      if_recipients e.recipients (record s { envelope = e }) s (relayed hop s w) w h

  module _ (q : ProcessQueue M) where
    -- In some world before, libesmtp was given the message for the envelope that the session has now.
    unfoldable pub IsRelayed : State M W → Type 0
    IsRelayed t = (w : W) × IsTaken t.session.envelope t.session.message_file w t.world

    module _ (hop : Bytes) (named : st.nexthop ≡ some hop)
        (no_file : (w : W) → sys.is_file w hop ≡ false) where
      nexthop_find-smtp : (w : W) → nexthop_find (with_esmtp sys lib) st w ≡ smtp_delivery hop
      unfolding nexthop_find
      nexthop_find-smtp w = rw (named, no_file w, nexthop_find) refl

      deliver-IsRelayed :
          (f : NexthopFunction) (s : State M W)
          → f ≡ smtp_delivery hop
          → (deliver (with_esmtp sys lib) q st f s).0 ≡ pos 0
          → IsRelayed (deliver (with_esmtp sys lib) q st f s).1
      unfolding deliver IsRelayed
      deliver-IsRelayed f s e h =
          let Relays = λ (g : NexthopFunction).
            (deliver (with_esmtp sys lib) q st g s).0 ≡ pos 0
            → IsRelayed (deliver (with_esmtp sys lib) q st g s).1 in
          subst Relays (sym e) (λ z. (s.world, smtp_delivery-IsTaken hop s.session s.world z)) h

      not_zero : (code : ℤ) → eq_ℤ code (pos 0) ≡ false → code ≡ pos 0 → ⊥
      not_zero code n z = absurd (ground (arith, eq_ℤ_iff code (pos 0)))

      after_flush :
          (r : ℤ × State M W)
          → let end =
              if eq_ℤ r.0 (pos 0)
              then deliver
                  (with_esmtp sys lib)
                  q
                  st
                  (nexthop_find (with_esmtp sys lib) st r.1.world)
                  r.1
              else (r.0, r.1) in
            end.0 ≡ pos 0 → IsRelayed end.1
      after_flush (code, s) h = elim (Bool-cases (eq_ℤ code (pos 0))) [
        | inl y ↦ rw y (
            deliver-IsRelayed (nexthop_find (with_esmtp sys lib) st s.world) s
              (nexthop_find-smtp s.world) (rw y at h))
        | inr n ↦ absurd (not_zero code n (rw n at h))
      ]

      finish-IsRelayed :
          (msg : M) (initial : List Header) (ret : ℤ) (header : Bytes) (s : State M W)
          → (finish (with_esmtp sys lib) q st msg initial ret header s).0 ≡ pos 0
          → IsRelayed (finish (with_esmtp sys lib) q st msg initial ret header s).1
      unfolding finish
      finish-IsRelayed msg initial ret header s h =
          elim (Bool-cases (eq_ℤ ret (pos 0) || eq_ℤ ret (pos 2))) [
            | inl y ↦ rw (y, finish) (after_flush _ (rw (y, finish) at h))
            | inr n ↦
                let zero : eq_ℤ ret (pos 0) ≡ false = ground arith in
                absurd (not_zero ret zero (rw (n, finish) at h))
          ]

      conclude-IsRelayed :
          (msg : M) (initial : List Header) (e : LoopEnd M W)
          → Halts e
          → (conclude (with_esmtp sys lib) q st msg initial e).0 ≡ pos 0
          → IsRelayed (conclude (with_esmtp sys lib) q st msg initial e).1
      unfolding conclude Halts
      conclude-IsRelayed msg initial (stopped code s) (inl c) h = absurd (refused (sym c ∙ h))
      conclude-IsRelayed msg initial (stopped code s) (inr c) h = absurd (cc)
      conclude-IsRelayed msg initial (finished ret header s) _ h =
          finish-IsRelayed msg initial ret header s h

      -- Where a next hop is configured that is no file and the queue returns 0 for a message, libesmtp could
      -- start for the envelope and the spool file that the session has then, was given them and has
      -- answered 250, and nothing has happened since.
      pub modules_process-IsRelayed :
          (msg : M) (s : State M W)
          → (modules_process (with_esmtp sys lib) q st msg s).0 ≡ pos 0
          → IsRelayed (modules_process (with_esmtp sys lib) q st msg s).1
      unfolding modules_process
      modules_process-IsRelayed msg s h =
          let header = if eq_ℤ st.add_header (pos 1) then codes "X-Spmfilter: " else [] in
          let (session1, world1) = fetch_user_data (with_esmtp sys lib) st s.session s.world in
          conclude-IsRelayed msg (copy_headers (sys.headers s.world msg)) _
            (run_modules-Halts (with_esmtp sys lib) q st st.modules 0 (pos 0) header
              (record s { session = session1; world = world1 }))
            h
