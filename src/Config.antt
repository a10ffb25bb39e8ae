-- ===== src/Config.antt =====
-- internal/config: the settings.
pub mod Runtime
pub mod File
mod Tests
