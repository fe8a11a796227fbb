-- ===== src/Daemon/Firecracker.antt =====
-- daemon/pkg/firecracker/impl.go and disk.go: how the provider boots a microVM, from a kernel or from a
-- snapshot, attaches to one that runs, recovers those of an earlier daemon and deletes one. The kernel,
-- the jailer and Firecracker's API are the interface Machine of Daemon.Firecracker.System.
pub mod System
pub mod Input
pub mod Staging
pub mod Launch
pub mod Provider
pub mod Frames
pub mod Stopped
pub mod Failures
pub mod Recovery
mod Tests
