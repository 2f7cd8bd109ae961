-- ===== src/World.antt =====
-- The authoritative, feature-neutral world model of crates/world, and the identifiers of
-- crates/sdk/src/world.rs that it shares with extensions.
pub mod Ids
pub mod Errors
pub mod Schema
pub mod Authority
pub mod State
pub mod Command
pub mod Transaction
pub mod Session
