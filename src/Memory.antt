-- ===== src/Memory.antt =====
-- memory/db.go: the in-memory database.
pub mod State
pub mod Messages
pub mod Revisions
pub mod Reading
pub mod Updates
pub mod Users
pub mod Rows
pub mod Account
pub mod History
pub mod Tests
