-- ===== src/Tests.antt =====
-- Concrete values for the modules below, and runs of the development on them.
pub mod Worlds
pub mod Runs
pub mod Commits
pub mod Outboxes
pub mod Receipts
pub mod Schemas
pub mod Mutations
pub mod Services
pub mod Projections
pub mod Extensions
pub mod Engine
pub mod Ui
