-- ===== src/Smtpd/Data.antt =====
-- `smf_smtpd_process_data` and what it calls: the lines of a message are received, written to the
-- spool file and given to the queue. The input is the lines that `smf_internal_readline` returns,
-- none of which holds a NUL byte. The code reads the message through a buffer of its own, so that
-- the dialog and the message share one input only where the client waits for the reply to DATA, and
-- for the reply to the message, before it goes on, as it must with a server that does not offer
-- PIPELINING; so the model takes it.
pub mod Receive
pub mod Spool
pub mod RoundTrip
pub mod Process
pub mod Answer
pub mod Cleanup
