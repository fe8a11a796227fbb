-- ===== src/Db.antt =====
-- The api-server's persistence (api-server/pkg/db).
pub mod Errors
pub mod Dynamo
pub mod Memory
pub mod Sandbox
pub mod Node
mod Tests
