-- ===== src/Daemon.antt =====
-- cmd/daemon: the process that ties the packages together.
pub mod Maintenance
mod Tests
