-- ===== src/Tests/Delivery.antt =====
-- A message that a module has passed and that the next hop takes.
use spmfilter.Base.{ℕ, ◌≡◌, refl, inl, true, none, some, [], ◌∷◌, codes, equal, pos, eq_ℤ}
use spmfilter.Settings.{Settings, settings_new}
use spmfilter.Envelope.{empty_envelope, set_nexthop}
use spmfilter.Users.{fetch_user_data, has_query}
use spmfilter.Nexthop.{
  default_sender, default_nexthop, nexthop_find, copy_recipients, smtp_delivery_nexthop,
}
use spmfilter.Modules.Headers.{changed, is_dirty, copy_headers}
use spmfilter.Modules.Invoke.{message_file_mtime, after_run, module_invoke}
use spmfilter.Modules.Flush.{flush_dirty}
use spmfilter.Modules.Process.{
  State, append_name, judge, run_modules, deliver, flush, finish, conclude, modules_process,
}
use spmfilter.Smtpd.Queue.{smtpd_queue}
use spmfilter.Smtp.{
  Esmtp, status_of, reverse_path_of, content_of, prepare, run_job, deliver_message,
}
use spmfilter.Smtp.Reported.{with_esmtp, IsRelayed, modules_process-IsRelayed}
use spmfilter.Tests.Fixture.{Files, disk, with_modules, ready}

abbrev clerk : Esmtp ℕ Files
clerk = record {
  set_reverse_path = λ path. true;
  set_message_str = λ text. true;
  add_recipient = λ r. true;
  opens = λ w path. none;
  to_string = λ w m. [];
  transfer = λ w job. (inl (pos 250, none), w);
}

abbrev relay : Settings
relay = record (with_modules (codes "clean" ∷ [])) { nexthop = some (codes "mx") }

abbrev posted : State ℕ Files
posted = record ready {
  session = record (ready.session) {
    message_file = some (codes "/q/1");
    envelope = record empty_envelope {
      sender = some (codes "a@b");
      recipients = codes "c@d" ∷ [];
      message = some 1;
    };
  };
}

relay-returns : (modules_process (with_esmtp disk clerk) smtpd_queue relay 1 posted).0 ≡ pos 0
unfolding modules_process conclude run_modules judge eq_ℤ module_invoke equal codes after_run
    fetch_user_data has_query settings_new message_file_mtime finish flush flush_dirty is_dirty
    copy_headers append_name deliver nexthop_find smtp_delivery_nexthop copy_recipients
    default_sender default_nexthop deliver_message prepare content_of run_job status_of
    reverse_path_of changed set_nexthop
relay-returns = refl

modules_process-IsRelayed_example :
    IsRelayed disk clerk relay smtpd_queue
      (modules_process (with_esmtp disk clerk) smtpd_queue relay 1 posted).1
modules_process-IsRelayed_example =
    modules_process-IsRelayed disk clerk relay smtpd_queue (codes "mx") refl (λ w. refl) 1 posted
      relay-returns
