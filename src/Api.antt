-- ===== src/Api.antt =====
-- src/api: the JSON-RPC interface of the daemon.
pub mod Rpc
pub mod Routes
pub mod Peers
pub mod Handler
