-- ===== src/Executor.antt =====
-- src/modules/operations/operation-executor.ts and operation-handler.ts: what drives an operation.
pub mod Interface
pub mod Lifecycle
pub mod Unmoved
pub mod Writing
pub mod Moves
pub mod Refinement
pub mod Outcomes
pub mod Success
pub mod Settled
pub mod Finality
pub mod Durable
pub mod Hooks
pub mod Settlement
pub mod Pipeline
