-- ===== src/Tests.antt =====
-- Concrete runs: the server at work on small tables.
pub mod Fixtures
mod Life
mod Permissions
mod Runs
mod Approval
mod Worker
mod Inventory
mod Plans
mod Bookings
mod Orbits
mod Accounts
mod Http
mod Upload
