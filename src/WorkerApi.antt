-- ===== src/WorkerApi.antt =====
-- server/go/internal/workerapi: what the station's worker tells the server.
pub mod Reports
pub mod Sync
pub mod Upload
pub mod Register
