-- ===== src/Modules/Path.antt =====
-- The queue leaves the spool file of the session, where the modules do.
use spmfilter.Base.{
  ℕ, ◌+◌, ◌≡◌, refl, ◌∙◌, false, inl, inr, ◌&&◌, Option-cases, Option, some, List, [], ◌∷◌, ◌++◌,
  ◌||◌, ltb, if◌then◌else◌, Bytes, codes, ℤ, pos, eq_ℤ,
}
use spmfilter.Settings.{Settings}
use spmfilter.Session.{Session}
use spmfilter.System.{System, Header}
use spmfilter.Users.{fetch_user_data}
use spmfilter.Users.Path.{fetch_user_data-path}
use spmfilter.Envelope.{Envelope}
use spmfilter.Modules.Headers.{copy_headers}
use spmfilter.Modules.Invoke.{message_file_mtime, reload, after_run, module_invoke}
use spmfilter.Modules.Codes.{if_both, List-cases}
use spmfilter.Modules.Process.{
  State, ProcessQueue, LoopEnd, stopped, finished, give_up, leave, continue, append_name, judge,
  run_modules, flush, deliver, finish, conclude, modules_process,
}
use spmfilter.Nexthop.{
  NexthopFunction, no_nexthop, file_delivery, smtp_delivery, nexthop_find, copy_recipients,
  default_sender, smtp_delivery_nexthop,
}

-- No module sets the spool file of the session.
unfoldable pub Keeping : {M W : Type 0} → System M W → Type 0
Keeping {M} {W} sys =
    (name : Bytes) (run : Settings → Session M → W → ℤ × Session M × W)
    → sys.runner name ≡ some run
    → (st : Settings) (s : Session M) (w : W) → (run st s w).1.message_file ≡ s.message_file

module _ {M W : Type 0} (sys : System M W) (keeping : Keeping sys) where
  reload-path :
      (path : Bytes) (s : Session M) (w : W) → (reload sys path s w).1.message_file ≡ s.message_file
  unfolding reload
  reload-path path s w =
      if_both (λ (r : ℤ × Session M × W). r.1.message_file ≡ s.message_file)
        (eq_ℤ (sys.message_from_file w path false).0 (pos 0)) _ _ refl refl

  after_run-path :
      (before : ℕ) (result : ℤ) (s : Session M) (w : W)
      → (after_run sys before result s w).1.message_file ≡ s.message_file
  unfolding after_run
  after_run-path before result s w = elim (Option-cases s.message_file) [
    | inl n ↦ rw (n, after_run) n
    | inr (path, e) ↦
        rw (e, after_run)
          (if_both (λ (r : ℤ × Session M × W). r.1.message_file ≡ some path)
            (eq_ℤ result (pos 0) && ltb before (message_file_mtime sys s w)) _ _
            (reload-path path s w ∙ e) e)
  ]

  module_invoke-path :
      (st : Settings) (name : Bytes) (s : Session M) (w : W)
      → (module_invoke sys st name s w).1.message_file ≡ s.message_file
  unfolding module_invoke Keeping
  module_invoke-path st name s w = elim (Option-cases (sys.runner name)) [
    | inl n ↦ rw (n, module_invoke) refl
    | inr (run, e) ↦
        rw (e, module_invoke)
          (after_run-path (message_file_mtime sys s w) (run st s w).0 (run st s w).1 (run st s w).2
            ∙ keeping name run e st s w)
  ]

  -- The spool file of the session that the loop ends with.
  EndsWith : Option Bytes → LoopEnd M W → Type 0
  EndsWith path (stopped code s) = s.session.message_file ≡ path
  EndsWith path (finished ret header s) = s.session.message_file ≡ path

  module _ (q : ProcessQueue M) (st : Settings) where
    run_modules-path :
        (path : Option Bytes) (names : List Bytes) (k : ℕ) (ret : ℤ) (header : Bytes)
        (s : State M W)
        → s.session.message_file ≡ path
        → EndsWith path (run_modules sys q st names k ret header s)
    unfolding run_modules EndsWith
    run_modules-path path [] k ret header s h = h
    run_modules-path path (name ∷ names) k ret header s h =
        let (result, session1, world1) = module_invoke sys st name s.session s.world in
        let kept = module_invoke-path st name s.session s.world ∙ h in
        let s1 : State M W = record {
          session = session1;
          world = world1;
          out = s.out ++ (judge sys q st result session1).1;
        } in
        elim (judge sys q st result session1).0
          as (λ v. EndsWith path (elim v [
            | give_up code ↦ stopped code s1
            | leave ↦ finished (pos 2) header s1
            | continue next ↦
                run_modules sys q st names (k + 1) next (append_name st (k + 1) name header) s1
          ])) [
            | give_up code ↦ kept
            | leave ↦ kept
            | continue next ↦
                run_modules-path path names (k + 1) next (append_name st (k + 1) name header) s1
                  kept
          ]

    deliver-path :
        (f : NexthopFunction) (s : State M W)
        → (deliver sys q st f s).1.session.message_file ≡ s.session.message_file
    unfolding deliver smtp_delivery_nexthop
    deliver-path no_nexthop s = refl
    deliver-path (file_delivery hop) s = refl
    deliver-path (smtp_delivery hop) s =
        let e : Envelope M = copy_recipients sys s.world (default_sender s.session.envelope) in
        elim (List-cases sys st e.recipients) [
          | inl n ↦ rw (n, smtp_delivery_nexthop) refl
          | inr (a, (rest, n)) ↦ rw (n, smtp_delivery_nexthop) refl
        ]

    flush-path :
        (initial : List Header) (s : State M W)
        → (flush sys q st initial s).1.session.message_file ≡ s.session.message_file
    unfolding flush
    flush-path initial s = refl

    finish-path :
        (msg : M) (initial : List Header) (ret : ℤ) (header : Bytes) (s : State M W)
        → (finish sys q st msg initial ret header s).1.session.message_file ≡ s.session.message_file
    unfolding finish
    finish-path msg initial ret header s =
        let Kept = λ (r : ℤ × State M W). r.1.session.message_file ≡ s.session.message_file in
        let s1 : State M W =
          if eq_ℤ st.add_header (pos 1)
          then record s { world = sys.set_header s.world msg header }
          else s in
        let same : s1.session.message_file ≡ s.session.message_file =
          if_both (λ (x : State M W). x.session.message_file ≡ s.session.message_file)
            (eq_ℤ st.add_header (pos 1)) _ _ refl refl in
        let (code, s2) = flush sys q st initial s1 in
        let flushed = flush-path initial s1 ∙ same in
        if_both Kept (eq_ℤ ret (pos 0) || eq_ℤ ret (pos 2)) _ _
          (if_both Kept (eq_ℤ code (pos 0)) _ _
            (deliver-path (nexthop_find sys st s2.world) s2 ∙ flushed) flushed)
          refl

    conclude-path :
        (path : Option Bytes) (msg : M) (initial : List Header) (e : LoopEnd M W)
        → EndsWith path e
        → (conclude sys q st msg initial e).1.session.message_file ≡ path
    unfolding conclude EndsWith
    conclude-path path msg initial (stopped code s) h = h
    conclude-path path msg initial (finished ret header s) h =
        finish-path msg initial ret header s ∙ h

    -- Where no module sets the spool file of the session, it is the same behind the queue.
    pub modules_process-path :
        (msg : M) (s : State M W)
        → (modules_process sys q st msg s).1.session.message_file ≡ s.session.message_file
    unfolding modules_process
    modules_process-path msg s =
        let header = if eq_ℤ st.add_header (pos 1) then codes "X-Spmfilter: " else [] in
        let (session1, world1) = fetch_user_data sys st s.session s.world in
        conclude-path s.session.message_file msg (copy_headers (sys.headers s.world msg)) _ (
          run_modules-path s.session.message_file st.modules 0 (pos 0) header
            (record s { session = session1; world = world1 })
            (fetch_user_data-path sys st s.session s.world))
