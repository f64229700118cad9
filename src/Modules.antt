-- ===== src/Modules.antt =====
-- src/smf_modules.c: the queue of modules that a message runs through.
pub mod Load
pub mod Headers
pub mod Invoke
pub mod Flush
pub mod Process
pub mod Codes
pub mod Contract
pub mod Path
pub mod Halting
pub mod Order
pub mod Unchanged
