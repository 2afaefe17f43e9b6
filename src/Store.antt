-- ===== src/Store.antt =====
-- server/go/internal/store: the database as a state that statements read and change.
pub mod World
pub mod Order
pub mod Reads
pub mod Passes
pub mod Plans
pub mod Workers
pub mod Users
pub mod Recordings
pub mod Pipelines
pub mod Sessions
pub mod Listing
