-- ===== src/Tests/Queue.antt =====
-- Examples for the queue.
use spmfilter.Base.{
  ℕ, ◌≡◌, refl, ◌⊎◌, false, inl, [], ◌∷◌, ◌++◌, codes, equal, pos, minus_one, eq_ℤ,
}
use spmfilter.Settings.{Settings, settings_new}
use spmfilter.Users.{fetch_user_data, has_query}
use spmfilter.Modules.Invoke.{module_invoke, after_run}
use spmfilter.Modules.Process.{State, modules_process}
use spmfilter.Modules.Order.{
  Stops, Chain, all_run, module_ok, after_module, before_modules, modules_process-stop,
}
use spmfilter.Smtpd.Reply.{code_reply}
use spmfilter.Smtpd.Queue.{smtpd_queue, process_modules, handle_processing_error}
use spmfilter.Smtpd.Silence.{process_modules-ignored}
use spmfilter.Modules.Contract.{Adds}
use spmfilter.Smtpd.Replies.{process_modules-Adds}
use spmfilter.Tests.Fixture.{Files, disk, with_modules, ready}

-- One module that succeeds, one that fails, and one behind it.
abbrev three : Settings
three = with_modules (codes "clean" ∷ codes "reject" ∷ codes "clean" ∷ [])

abbrev clean_run : State ℕ Files
clean_run = after_module disk three (codes "clean") (before_modules disk three ready)

clean_first : Chain disk three (codes "clean" ∷ []) (before_modules disk three ready) clean_run
unfolding module_invoke codes equal after_run after_module before_modules fetch_user_data has_query
    settings_new
clean_first = module_ok refl all_run

reject_fails :
    eq_ℤ (module_invoke disk three (codes "reject") clean_run.session clean_run.world).0 (pos 0)
    ≡ false
unfolding module_invoke codes equal eq_ℤ after_run after_module before_modules fetch_user_data
    has_query settings_new
reject_fails = refl

reject_handled :
    let r = module_invoke disk three (codes "reject") clean_run.session clean_run.world in
    smtpd_queue.processing_error three r.1 r.0 ≡ (pos 0, code_reply three.smtp_codes (pos 552) ∷ [])
unfolding module_invoke codes equal handle_processing_error eq_ℤ after_run after_module
    before_modules fetch_user_data has_query settings_new
reject_handled = refl

zero-Stops : Stops disk smtpd_queue three (pos 0) minus_one
unfolding Stops
zero-Stops = inl (refl, refl)

modules_process-stop_example : modules_process disk smtpd_queue three 1 ready ≡ (
  minus_one,
  record (after_module disk three (codes "reject") clean_run) {
    out = clean_run.out ++ code_reply three.smtp_codes (pos 552) ∷ [];
  },
)
modules_process-stop_example =
    modules_process-stop disk smtpd_queue three (codes "reject") (codes "clean" ∷ []) (pos 0)
      minus_one (code_reply three.smtp_codes (pos 552) ∷ []) 1 ready refl clean_first reject_fails
      reject_handled zero-Stops

abbrev two : Settings
two = with_modules (codes "clean" ∷ codes "clean" ∷ [])

abbrev two_run : State ℕ Files
two_run =
    after_module disk two (codes "clean")
      (after_module disk two (codes "clean") (before_modules disk two ready))

process_modules-Adds_example :
    let s' = (process_modules disk three 1 ready).1 in
    Adds 0 ready.out s'.out ⊎ Adds 1 ready.out s'.out
process_modules-Adds_example = process_modules-Adds disk three 1 ready

-- A failure that the configuration ignores.
abbrev lenient : Settings
lenient = record three { module_fail = pos 1 }

abbrev lenient_run : State ℕ Files
lenient_run = after_module disk lenient (codes "clean") (before_modules disk lenient ready)

lenient_first :
    Chain disk lenient (codes "clean" ∷ []) (before_modules disk lenient ready) lenient_run
unfolding module_invoke codes equal after_run after_module before_modules fetch_user_data has_query
    settings_new
lenient_first = module_ok refl all_run

lenient_fails :
    (module_invoke disk lenient (codes "reject") lenient_run.session lenient_run.world).0
    ≡ minus_one
unfolding module_invoke codes equal after_run after_module before_modules fetch_user_data has_query
    settings_new
lenient_fails = refl

process_modules-ignored_example :
    process_modules disk lenient 1 ready
    ≡ (pos 0, after_module disk lenient (codes "reject") lenient_run)
process_modules-ignored_example =
    process_modules-ignored disk lenient (codes "reject") (codes "clean" ∷ []) 1 ready refl refl
      lenient_first lenient_fails
