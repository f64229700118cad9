-- ===== src/Smtpd/Silence.antt =====
-- A module that fails where the configuration says to ignore it.
use spmfilter.Base.{
  ◌≡◌, refl, ap, ◌∙◌, inr, false, List, [], ◌∷◌, ◌++◌, append-nil, Bytes, ℤ, pos, minus_one, eq_ℤ,
}
use spmfilter.Settings.{Settings}
use spmfilter.Session.{Session}
use spmfilter.System.{System}
use spmfilter.Modules.Invoke.{module_invoke}
use spmfilter.Modules.Process.{State}
use spmfilter.Modules.Order.{Stops, Chain, after_module, before_modules, modules_process-stop}
use spmfilter.Smtpd.Queue.{handle_processing_error, smtpd_queue, reply_to_queue, process_modules}

module _ {M W : Type 0} (sys : System M W) (st : Settings) where
  handled-ignored :
      (s : Session M) (result : ℤ)
      → st.module_fail ≡ pos 1
      → result ≡ minus_one
      → smtpd_queue.processing_error st s result ≡ (pos 1, [])
  unfolding handle_processing_error eq_ℤ
  handled-ignored s result f e = rw (e, f) refl

  failed_not_zero : (result : ℤ) → result ≡ minus_one → eq_ℤ result (pos 0) ≡ false
  unfolding eq_ℤ
  failed_not_zero result e = rw e refl

  one-Stops : Stops sys smtpd_queue st (pos 1) (pos 1)
  unfolding Stops
  one-Stops = inr (refl, refl)

  -- With `module_fail` 1, a module that returns -1 behind modules that return 0 ends the queue in
  -- silence: no later module runs, no reply is written, and nothing is flushed or delivered.
  pub process_modules-ignored :
      {before : List Bytes} {s1 : State M W} (name : Bytes) (later : List Bytes) (msg : M)
      (s : State M W)
      → st.modules ≡ before ++ name ∷ later
      → st.module_fail ≡ pos 1
      → Chain sys st before (before_modules sys st s) s1
      → (module_invoke sys st name s1.session s1.world).0 ≡ minus_one
      → process_modules sys st msg s ≡ (pos 0, after_module sys st name s1)
  unfolding process_modules reply_to_queue eq_ℤ after_module
  process_modules-ignored {before} {s1} name later msg s e f c r =
      let s2 = after_module sys st name s1 in
      let result = (module_invoke sys st name s1.session s1.world).0 in
      let stop =
        modules_process-stop sys smtpd_queue st name later (pos 1) (pos 1) [] msg s e c
          (failed_not_zero result r) (handled-ignored s2.session result f r) one-Stops in
      ap (λ t. reply_to_queue sys st t.0 t.1) stop
      ∙ ap (λ o. (pos 0, record s2 { out = o })) (append-nil s1.out)
