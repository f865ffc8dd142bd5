-- ===== src/Tests.antt =====
-- The theorems at concrete inputs.
pub mod Data
mod Table
mod Sessions
mod Connections
mod Daemon
mod Running
mod Reloading
mod Relay
mod Texts
pub mod Specs
pub mod Answers
mod Commands
