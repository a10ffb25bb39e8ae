-- ===== src/Alerting.antt =====
-- internal/alerting: threshold rules, the life of an alert, and its notification.
pub mod Rule
pub mod Evaluator
mod Tests
pub mod Notify
