-- ===== src/Net.antt =====
-- Addresses as package net/netip has them, and the daemon's addressing policy.
pub mod Addr
pub mod Allocator
mod Tests
