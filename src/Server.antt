-- ===== src/Server.antt =====
-- internal/server: the HTTP API.
pub mod RateLimit
pub mod Sessions
pub mod AccountHandlers
pub mod AgentGate
pub mod AgentHandlers
pub mod RuleHandlers
pub mod UserHandlers
mod Tests
mod AccountTests
mod FleetTests
mod RuleTests
mod IngestTests
mod HubTests
mod JoinTests
mod MetricsTests
pub mod Ingest
pub mod Hub
pub mod Metrics
