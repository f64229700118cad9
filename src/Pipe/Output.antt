-- ===== src/Pipe/Output.antt =====
-- What the pipe engine returns and prints.
use spmfilter.Base.{
  ◌≡◌, refl, ◌⊎◌, inl, inr, true, Option, none, some, List, [], ◌∷◌, ◌++◌, Option-cases, length,
  Bytes, ℤ, pos, minus_one, eq_ℤ,
}
use mathlib.Core.Path.{subst}
use spmfilter.Settings.{Settings}
use spmfilter.Session.{Session}
use spmfilter.System.{System}
use spmfilter.Spool.{gen_queue_file}
use spmfilter.Modules.Codes.{if_both}
use spmfilter.Modules.Contract.{Adds, IsSilent, Sent, IsContract, Settled, modules_process-Settled}
use spmfilter.Modules.Process.{State, modules_process}
use spmfilter.Pipe.{
  Turn, copy_stdin, handle_q_processing_error, pipe_queue, remove_message, process_spooled, load,
}

handle_q_processing_error-Sent :
    {M : Type 0} (st : Settings) (s : Session M) (result : ℤ)
    → Sent (handle_q_processing_error st s result)
unfolding handle_q_processing_error Sent
handle_q_processing_error-Sent st s result =
    if_both Sent (eq_ℤ result minus_one) _ _
      (if_both Sent (eq_ℤ st.module_fail (pos 1)) _ _ (inl (inr refl, inl refl))
        (inl (inl refl, inl refl)))
      (if_both Sent (eq_ℤ result (pos 1)) _ _ (inl (inr refl, inl refl)) (
        if_both Sent (eq_ℤ result (pos 2)) _ _ (inr (refl, refl))
          (inl (inr refl, printed s.response_msg))))
  where
    printed :
        (o : Option Bytes)
        → let rs : List Bytes = elim o [ some m ↦ (m ++ b'\n' ∷ []) ∷ [] | none ↦ [] ] in
          (length rs ≡ 0) ⊎ (length rs ≡ 1)
    printed none = inl refl
    printed (some m) = inr refl

pub pipe_queue-IsContract : {M : Type 0} → IsContract {M = M} pipe_queue
pipe_queue-IsContract = record {
  processing_sent = handle_q_processing_error-Sent;
  nexthop_sent = λ st s. inl refl;
}

module _ {M W : Type 0} (sys : System M W) (st : Settings) where
  out-remove_message : (s : State M W) → (remove_message sys st s).out ≡ s.out
  unfolding remove_message
  out-remove_message s = elim (Option-cases s.session.message_file) [
    | inl n ↦ rw (n, remove_message) refl
    | inr (path, e) ↦ elim (Option-cases (sys.unlink s.world path)) [
      | inl n ↦ rw (e, n, remove_message) refl
      | inr (w, f) ↦ rw (e, f, remove_message) refl
    ]
  ]

  -- Only the code and what is printed matter.
  same_out :
      (out : List Bytes) (code : ℤ) (s t : State M W)
      → t.out ≡ s.out
      → Settled out (code, s)
      → Settled out (code, t)
  unfolding Settled
  same_out out code s t e h = rw e h

  early : (s : State M W) → s.out ≡ [] → Settled [] (minus_one, s)
  unfolding Settled IsSilent Adds
  early s e = inl (inl refl, inl ([], (refl, e)))

  process_spooled-Settled :
      (path : Bytes) (s : State M W) → s.out ≡ [] → Settled [] (process_spooled sys st path s)
  unfolding process_spooled
  process_spooled-Settled path s e =
      let (code, m, w) = sys.message_from_file s.world path true in
      let session' = record (s.session) {
        envelope = record (s.session.envelope) { message = some m };
      } in
      let before : State M W = record s { session = session'; world = w } in
      let r = modules_process sys pipe_queue st m before in
      let h : Settled [] r =
        subst (λ o. Settled o r) e
          (modules_process-Settled sys pipe_queue pipe_queue-IsContract st m before) in
      if_both (Settled []) (eq_ℤ code (pos 0)) _ _
        (same_out [] r.0 r.1 (remove_message sys st r.1) (out-remove_message r.1) h)
        (early (record s { world = w }) e)

  -- `load` of the pipe engine returns 0 and has printed nothing, or it returns -1 or 1 and has printed
  -- one line at most, whatever the modules, the file system and the input do.
  pub load-Settled :
      (sid : Bytes) (turns : List Turn) (w : W) → Settled [] (load sys st sid turns w)
  unfolding load
  load-Settled sid turns w =
      let q = gen_queue_file sys st sid w in
      let c = copy_stdin turns [] in
      elim (Option-cases (sys.write_file q.1 q.0 [])) [
        | inl n ↦ rw (n, load) (early _ refl)
        | inr (w2, e2) ↦ elim (Option-cases (sys.write_file w2 q.0 c.1)) [
          | inl n ↦ rw (e2, n, load) (early _ refl)
          | inr (w3, e3) ↦
              rw (e2, e3, load)
                (if_both (Settled []) c.0 _ _ (process_spooled-Settled q.0 _ refl) (early _ refl))
        ]
      ]
