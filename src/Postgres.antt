-- ===== src/Postgres.antt =====
-- internal/db: the storage on PostgreSQL. The SQL text of each statement is modelled by its effect on
-- the rows.
pub mod Tables
pub mod Sql
pub mod Messages
pub mod History
pub mod Revisions
pub mod Updates
pub mod Reading
pub mod Users
pub mod Rows
pub mod Keys
pub mod Selecting
pub mod Keyed
pub mod Running
pub mod Agrees
mod Tests
pub mod Outages
