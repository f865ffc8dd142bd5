-- ===== src/Session.antt =====
-- src/session.
pub mod Error
pub mod HoldTimer
pub mod Counts
pub mod Capabilities
pub mod Peer
pub mod Machine
pub mod Updates
pub mod Run
pub mod Codec
pub mod Poller
pub mod Manager
