-- ===== src/Http.antt =====
-- server/go/internal/httpapi: the handlers behind their guards.
pub mod Answers
pub mod Guards
pub mod Accounts
pub mod Passes
pub mod Routes
