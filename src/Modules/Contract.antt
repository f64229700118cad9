-- ===== src/Modules/Contract.antt =====
-- What the queue promises its engine, whose handlers keep their part: codes and the number of replies.
use spmfilter.Base.{
  ℕ, ◌+◌, ◌≡◌, refl, sym, ◌∙◌, ◌⊎◌, inl, inr, true, ◌||◌, List, [], ◌∷◌, ◌++◌, append-nil, arith,
  if◌then◌else◌, Bool-cases, length, Bytes, codes, ℤ, pos, minus_one, eq_ℤ, eq_ℤ_iff,
}
use mathlib.Core.Path.{subst}
use spmfilter.Settings.{Settings}
use spmfilter.Session.{Session}
use spmfilter.System.{System, Header}
use spmfilter.Users.{fetch_user_data}
use spmfilter.Modules.Headers.{copy_headers}
use spmfilter.Modules.Invoke.{module_invoke}
use spmfilter.Modules.Codes.{IsCode, file_delivery-code, smtp_delivery-code, flush_dirty-IsCode}
use spmfilter.Modules.Process.{
  State, ProcessQueue, LoopEnd, stopped, finished, Verdict, give_up, leave, continue, verdict,
  append_name, judge, run_modules, flush, deliver, finish, conclude, modules_process,
}
use spmfilter.Nexthop.{NexthopFunction, no_nexthop, file_delivery, smtp_delivery, nexthop_find}

-- `n` replies more.
unfoldable pub Adds : ℕ → List Bytes → List Bytes → Type 0
Adds n before after = (rs : List Bytes) × ((length rs ≡ n) × (after ≡ before ++ rs))

-- A code with which the caller writes no reply of its own.
unfoldable pub IsSilent : ℤ → Type 0
IsSilent code = (code ≡ minus_one) ⊎ (code ≡ pos 1)

-- What the handler answers to an error of a module: it gives up, with one reply or none, or goes on
-- to the nexthop, with none.
Handled : Verdict × List Bytes → Type 0
Handled (give_up code, rs) = IsSilent code × ((length rs ≡ 0) ⊎ (length rs ≡ 1))
Handled (leave, rs) = rs ≡ []
Handled (continue code, rs) = (rs ≡ []) × (code ≡ pos 0)

-- What `processing_error` returns and writes.
unfoldable pub Sent : ℤ × List Bytes → Type 0
Sent (code, rs) =
    (((code ≡ pos 0) ⊎ (code ≡ pos 1)) × ((length rs ≡ 0) ⊎ (length rs ≡ 1)))
    ⊎ ((code ≡ pos 2) × (rs ≡ []))

verdict-Handled : (r : ℤ × List Bytes) → Sent r → Handled (verdict r.0, r.1)
unfolding verdict eq_ℤ Sent Handled IsSilent
verdict-Handled (code, rs) (inl (inl c, n)) = rw c (inl refl, n)
verdict-Handled (code, rs) (inl (inr c, n)) = rw c (inr refl, n)
verdict-Handled (code, rs) (inr (c, n)) = rw c n

-- The code and the replies of what follows the loop.
unfoldable pub Settled : {M W : Type 0} → List Bytes → ℤ × State M W → Type 0
Settled out (code, s) =
    (IsSilent code × (Adds 0 out s.out ⊎ Adds 1 out s.out)) ⊎ ((code ≡ pos 0) × (s.out ≡ out))

-- What an engine's handlers promise to the queue.
pub record IsContract {M : Type 0} (q : ProcessQueue M) : Type 0 where
  pub processing_sent :
      (st : Settings) (s : Session M) (result : ℤ) → Sent (q.processing_error st s result)
  pub nexthop_sent :
      (st : Settings) (s : Session M)
      → (length (q.nexthop_error st s) ≡ 0) ⊎ (length (q.nexthop_error st s) ≡ 1)

module _ {M W : Type 0} (sys : System M W) (q : ProcessQueue M) (law : IsContract q)
    (st : Settings) where
  judge-Handled : (result : ℤ) (s : Session M) → Handled (judge sys q st result s)
  unfolding judge Handled
  judge-Handled result s = elim (Bool-cases (eq_ℤ result (pos 0))) [
    | inl y ↦ rw y (refl, (eq_ℤ_iff result (pos 0)).0 y)
    | inr n ↦ rw n (verdict-Handled _ (law.processing_sent st s result))
  ]

  -- The end of the loop: silent with one reply or none, or going on without one.
  Ended : List Bytes → LoopEnd M W → Type 0
  Ended out (stopped code s) = IsSilent code × (Adds 0 out s.out ⊎ Adds 1 out s.out)
  Ended out (finished ret header s) = ((ret ≡ pos 0) ⊎ (ret ≡ pos 2)) × (s.out ≡ out)

  -- One module, where the rest of the loop ends as it should.
  module-Ended :
      (k : ℕ) (header : Bytes) (s : State M W) (r : ℤ × Session M × W) (name : Bytes)
      (names : List Bytes) (j : Verdict × List Bytes)
      → Handled j
      → ((s' : State M W)
          → (h' : Bytes) → Ended s'.out (run_modules sys q st names (k + 1) (pos 0) h' s'))
      → let s' : State M W = record { session = r.1; world = r.2; out = s.out ++ j.1 } in
        Ended s.out (elim (j.0) [
          | give_up code ↦ stopped code s'
          | leave ↦ finished (pos 2) header s'
          | continue ret' ↦
              run_modules sys q st names (k + 1) ret' (append_name st (k + 1) name header) s'
        ])
  unfolding Handled Ended Adds
  module-Ended k header s r name names (give_up code, rs) h ih =
      (h.0, elim (h.1) [ inl e ↦ inl (rs, (e, refl)) | inr e ↦ inr (rs, (e, refl)) ])
  module-Ended k header s r name names (leave, rs) h ih = (inr refl, rw h (append-nil s.out))
  module-Ended k header s r name names (continue code, rs) h ih =
      let e : s.out ++ rs ≡ s.out = rw (h.0) (append-nil s.out) in
      let s' : State M W = record { session = r.1; world = r.2; out = s.out ++ rs } in
      rw (h.1) (
        subst
          (λ o.
            Ended o
              (run_modules sys q st names (k + 1) (pos 0) (append_name st (k + 1) name header) s'))
          e (ih s' (append_name st (k + 1) name header)))

  run_modules-Ended :
      (names : List Bytes) (k : ℕ) (header : Bytes) (s : State M W)
      → Ended s.out (run_modules sys q st names k (pos 0) header s)
  unfolding run_modules Ended
  run_modules-Ended [] k header s = (inl refl, refl)
  run_modules-Ended (name ∷ names) k header s =
      let r = module_invoke sys st name s.session s.world in
      module-Ended k header s r name names (judge sys q st r.0 r.1) (judge-Handled r.0 r.1)
        (λ s' h'. run_modules-Ended names (k + 1) h' s')

  sent-Adds :
      (out rs : List Bytes)
      → (length rs ≡ 0) ⊎ (length rs ≡ 1)
      → Adds 0 out (out ++ rs) ⊎ Adds 1 out (out ++ rs)
  unfolding Adds
  sent-Adds out rs (inl z) = inl (rs, (z, refl))
  sent-Adds out rs (inr o) = inr (rs, (o, refl))

  deliver-Settled : (f : NexthopFunction) (s : State M W) → Settled s.out (deliver sys q st f s)
  unfolding deliver Settled IsSilent eq_ℤ
  deliver-Settled no_nexthop s = inr (refl, refl)
  deliver-Settled (file_delivery hop) s = elim (file_delivery-code sys st hop s.session s.world) [
    | inl e ↦ rw e (inr (refl, append-nil s.out))
    | inr e ↦ rw e (
        inl (
          inl refl,
          sent-Adds s.out (q.nexthop_error st s.session) (law.nexthop_sent st s.session),
        ))
  ]
  deliver-Settled (smtp_delivery hop) s = elim (smtp_delivery-code sys st hop s.session s.world) [
    | inl e ↦ rw e (inr (refl, append-nil s.out))
    | inr e ↦ rw e (inl (inl refl, sent-Adds s.out _ (law.nexthop_sent st _)))
  ]

  flush-code :
      (initial : List Header) (s : State M W)
      → let r = flush sys q st initial s in ((r.0 ≡ pos 0) ⊎ (r.0 ≡ minus_one)) × (r.1.out ≡ s.out)
  unfolding flush IsCode
  flush-code initial s = (flush_dirty-IsCode sys st s.session _ initial s.world, refl)

  -- The flush and the delivery, for a loop that has gone on to them.
  flush-deliver :
      (out : List Bytes) (initial : List Header) (s : State M W)
      → s.out ≡ out
      → let r = flush sys q st initial s in
        Settled out (
          if eq_ℤ r.0 (pos 0)
          then deliver sys q st (nexthop_find sys st r.1.world) r.1
          else (r.0, r.1))
  unfolding Settled IsSilent Adds eq_ℤ
  flush-deliver out initial s same =
      let r = flush sys q st initial s in
      let h = flush-code initial s in
      elim (h.0) [
        | inl e ↦ rw e (
            subst (λ o. Settled o (deliver sys q st (nexthop_find sys st r.1.world) r.1))
              (h.1 ∙ same) (deliver-Settled (nexthop_find sys st r.1.world) r.1))
        | inr e ↦ rw e (inl (inl refl, inl ([], (refl, h.1 ∙ (same ∙ sym (append-nil out))))))
      ]

  goes_on :
      (ret : ℤ) → (ret ≡ pos 0) ⊎ (ret ≡ pos 2) → (eq_ℤ ret (pos 0) || eq_ℤ ret (pos 2)) ≡ true
  unfolding eq_ℤ
  goes_on ret (inl e) = rw e refl
  goes_on ret (inr e) = rw e refl

  finish-Settled :
      (msg : M) (initial : List Header) (ret : ℤ) (header : Bytes) (s : State M W)
      → (ret ≡ pos 0) ⊎ (ret ≡ pos 2)
      → Settled s.out (finish sys q st msg initial ret header s)
  unfolding finish
  finish-Settled msg initial ret header s h =
      let s1 =
        if eq_ℤ st.add_header (pos 1)
        then record s { world = sys.set_header s.world msg header }
        else s in
      let e : s1.out ≡ s.out = ground arith in rw (goes_on ret h) (flush-deliver s.out initial s1 e)

  conclude-Settled :
      (msg : M) (initial : List Header) (out : List Bytes) (e : LoopEnd M W)
      → Ended out e
      → Settled out (conclude sys q st msg initial e)
  unfolding conclude Ended Settled
  conclude-Settled msg initial out (stopped code s) h = inl h
  conclude-Settled msg initial out (finished ret header s) h =
      subst (λ o. Settled o (finish sys q st msg initial ret header s)) h.1
        (finish-Settled msg initial ret header s h.0)

  -- With handlers that keep the contract, the queue ends with -1 or 1 and one reply at most, or with 0
  -- and none.
  pub modules_process-Settled :
      (msg : M) (s : State M W) → Settled s.out (modules_process sys q st msg s)
  unfolding modules_process
  modules_process-Settled msg s =
      let initial = copy_headers (sys.headers s.world msg) in
      let header = if eq_ℤ st.add_header (pos 1) then codes "X-Spmfilter: " else [] in
      let u = fetch_user_data sys st s.session s.world in
      let s0 : State M W = record s { session = u.0; world = u.1 } in
      conclude-Settled msg initial s.out _ (run_modules-Ended st.modules 0 header s0)
