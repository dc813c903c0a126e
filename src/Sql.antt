-- ===== src/Sql.antt =====
-- src/sqlx_store.rs: the stores of sessions in a table of a database.
pub mod Database
pub mod Store
pub mod Postgres
pub mod Sqlite
pub mod Mysql
pub mod Table
pub mod Outcomes
pub mod Progress
pub mod Loads
pub mod Contract
