-- ===== src/Ai.antt =====
-- internal/ai: the guards round the model calls.
pub mod CircuitBreaker
mod Tests
