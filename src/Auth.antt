-- ===== src/Auth.antt =====
-- internal/auth: accounts' roles and addresses, passwords, and the one-time setup token.
pub mod User
pub mod Password
pub mod Setup
