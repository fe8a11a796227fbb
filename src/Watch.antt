-- ===== src/Watch.antt =====
-- The watch streams of the api-server.
pub mod Stream
