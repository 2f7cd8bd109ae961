-- ===== src/Runtime.antt =====
-- crates/world-runtime: the single-writer command runtime of a world, and the protocol of durable effects.
pub mod Errors
pub mod Systems
pub mod Commands
pub mod Queue
pub mod Effect
pub mod Service
pub mod Projection
