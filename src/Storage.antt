-- ===== src/Storage.antt =====
-- crates/storage: the SQLite storage of one authoritative world. A table is the list of its rows in
-- insertion order, and a statement is a function on the tables, written from the text of the SQL.
pub mod Errors
pub mod External
pub mod Codec
pub mod Tables
pub mod Statements
pub mod Query
pub mod Schemas
pub mod Mutation
pub mod Digest
pub mod Commit
pub mod Outbox
pub mod Reach
pub mod Session
