-- ===== src/Scheduling.antt =====
-- server/go/internal/scheduling: the life of a pass, the rules of a booking, and the service that
-- books, approves, rejects and cancels passes.
pub mod StateMachine
pub mod Rules
pub mod Service
pub mod Safety
