-- ===== src/Auth.antt =====
-- server/go/internal/auth: roles and what they permit.
pub mod Rbac
pub mod Password
pub mod Service
