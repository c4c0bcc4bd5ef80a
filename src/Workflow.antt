-- ===== src/Workflow.antt =====
-- internal/workflow: definitions, their validation, execution and streaming.
pub mod Definition
pub mod Validator
pub mod Operations
pub mod Executor
pub mod Engine
pub mod Streaming
