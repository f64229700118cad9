-- ===== src/Smtpd.antt =====
-- src/smf_smtpd.c: the SMTP server engine.
pub mod Host
pub mod Reply
pub mod Configured
pub mod Queue
pub mod Replies
pub mod Silence
pub mod Data
pub mod Start
pub mod Dialog
