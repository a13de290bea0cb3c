-- ===== src/Protocols.antt =====
-- The run protocol: packages/contracts/python/science_workbench_contracts/protocols. Each child
-- models one file of that folder, and its children hold the theorems about it.
pub mod EventGuard
pub mod Models
pub mod Run
pub mod Execution
pub mod Approval
pub mod ApprovalStore
pub mod Replay
pub mod Runtime
pub mod Attempts
pub mod Reconciliation
pub mod Durable
pub mod Restore
pub mod Governance
mod RunTests
mod ExecutionTests
mod ApprovalTests
mod AttemptTests
mod DurableTests
mod RestoreTests
