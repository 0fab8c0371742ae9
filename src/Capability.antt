-- ===== src/Capability.antt =====
-- services/capability_registry: capabilities behind their contracts.
pub mod Errors
pub mod Permissions
pub mod Definition
pub mod Registry
pub mod Executor
pub mod StageRunner
pub mod Prompted
