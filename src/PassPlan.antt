-- ===== src/PassPlan.antt =====
-- server/go/internal/passplan/generator.go.
pub mod Wire
pub mod Radio
pub mod Generate
pub mod Effects
pub mod Content
pub mod Total
pub mod Described
