-- ===== src/Agent.antt =====
-- internal/agent: the push agent, which buffers samples on disk and forwards them.
pub mod SpoolFile
pub mod Spool
pub mod Client
mod Tests
