-- ===== src/Db.antt =====
-- The persistence layer: the rows and tables of internal/database/dbgen/models.go, and the queries
-- of db/queries as sqlc writes them out in internal/database/dbgen.
pub mod Rows
pub mod Tx
pub mod Order
pub mod Stories
pub mod Planning
pub mod Tasks
pub mod Accounts
pub mod Labels
pub mod Ids
