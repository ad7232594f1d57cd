-- ===== src/Models.antt =====
-- backend/app/models: the rows of the tables that the modelled services read and write.
-- Columns that none of these operations reads or writes (descriptions, audit columns) are left out.
-- A time is a number of microseconds since the epoch.
pub mod Alert
pub mod Routing
pub mod Channel
pub mod Outbox
pub mod Scheduled
pub mod Share
pub mod Cluster
pub mod User
pub mod Audit
pub mod Template
pub mod Db
