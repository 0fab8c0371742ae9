-- ===== src/Engine/Executor.antt =====
-- services/workflow_engine/src/forgeai_workflow_engine/executor.py, in four parts.
pub mod Plan
pub mod Control
pub mod Stages
pub mod Reap
pub mod Advance
pub mod Approval
