-- ===== src/Dns.antt =====
-- The daemon's DNS responder (daemon/pkg/dns).
pub mod Matcher
pub mod PolicyStore
pub mod Handler
mod Tests
