-- ===== src/Db.antt =====
-- The manager's SQLite database (app/db/models): enumerations, rows and the tables together.
pub mod Enums
pub mod Rows
pub mod Jobs
pub mod Audit
