-- ===== src/Daemon.antt =====
-- The daemon of a node (daemon/pkg).
pub mod Egress
pub mod Host
pub mod Firewall
pub mod Indexer
pub mod Reconciler
pub mod Controller
pub mod Firecracker
pub mod Session
mod Tests
