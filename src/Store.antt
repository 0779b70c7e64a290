-- ===== src/Store.antt =====
-- internal/store: the SQL statements of the program over the tables of `Db`. A query is a selection,
-- an UPDATE a map over the rows that its WHERE selects. Each statement is one `call`.
pub mod Sql
pub mod Files
pub mod Tree
pub mod Tx
pub mod Users
pub mod Shares
pub mod Tags
