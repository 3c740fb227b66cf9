-- ===== src/Store.antt =====
-- internal/store: the database seen through the queries that the program runs on it. The tables
-- are lists of rows; a query is the meaning of its SQL text, with the row-level security of
-- migrations/0002_rls.sql and the constraints of migrations/0001_tables.sql.
pub mod Errors
pub mod Rows
pub mod Tx
pub mod Posts
pub mod Tenants
pub mod Images
pub mod Imports
pub mod Accounts
pub mod Users
pub mod Oauth
pub mod Platform
