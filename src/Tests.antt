-- ===== src/Tests.antt =====
-- Each theorem with a hypothesis or a parameter, applied to the sample workflow.
pub mod Samples
pub mod Runs
pub mod Definitions
pub mod Parts
pub mod Capabilities
pub mod Completions
pub mod Requests
pub mod Connections
