-- ===== src/Storage.antt =====
-- internal/storage: the tables of the SQLite database, and the statements that read and write them.
pub mod SqlTime
pub mod Accounts
pub mod Fleet
pub mod RuleOverrides
pub mod Rollup
pub mod TimeRange
pub mod Samples
pub mod Events
pub mod Archive
mod Tests
