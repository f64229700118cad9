-- ===== src/Core.antt =====
-- The helper functions of src/smf_core.c.
pub mod Strip
pub mod Split
pub mod Expand
pub mod Copy
pub mod Names
