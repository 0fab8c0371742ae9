-- ===== src/Engine.antt =====
-- services/workflow_engine.
pub mod Errors
pub mod StateMachine
pub mod Version
pub mod Graph
pub mod Definition
pub mod Registry
pub mod Decisions
pub mod Runner
pub mod Session
pub mod EventBus
pub mod StateManager
pub mod Registration
pub mod Queue
pub mod Evolution
pub mod Executor
