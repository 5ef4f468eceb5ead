-- ===== src/Store.antt =====
-- The database layer (internal/store): the tables and rows, the way a SQL statement runs, and the
-- methods of the Postgres store, one module for each file of internal/store/postgres.
pub mod Models
pub mod Db
pub mod Exec
pub mod Queue
pub mod Views
pub mod Jobs
pub mod Executions
pub mod Tenants
pub mod Logs
pub mod Invariant
