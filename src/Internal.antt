-- ===== src/Internal.antt =====
-- The helpers of src/smf_internal.c.
pub mod Address
pub mod Linebreak
pub mod Readline
pub mod Chunks
pub mod Transfer
pub mod Sid
