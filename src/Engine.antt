-- ===== src/Engine.antt =====
-- crates/extension-engine: contracts between components, their resolution, the secrets policy and the
-- routing of service calls.
pub mod Contracts
pub mod Secrets
pub mod Composition
pub mod Component
pub mod Services
