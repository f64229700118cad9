-- ===== src/Tests.antt =====
-- Examples: every theorem with a hypothesis or a parameter, at a concrete input.
mod Fixture
mod Texts
mod Tables
mod Socket
mod Queue
mod Receive
mod Dialog
mod Pool
mod Parser
mod Engines
mod Directory
mod Startup
mod Command
mod Cleanup
mod Hash
mod Delivery
