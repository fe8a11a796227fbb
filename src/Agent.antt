-- ===== src/Agent.antt =====
-- The agent inside a sandbox (agent).
pub mod Framing
pub mod Guest
mod Tests
