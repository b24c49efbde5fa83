-- ===== src/Workflow.antt =====
-- Durable workflow operations.
pub mod Types
pub mod Backoff
pub mod Create
pub mod Claim
pub mod Cancel
pub mod Finish
pub mod Reap
pub mod Valid
pub mod Edges
pub mod Sound
pub mod Steps
pub mod Calls
pub mod Completion
pub mod Leasing
pub mod Requests
pub mod Replay
pub mod Reports
pub mod Run
pub mod Path
pub mod Ownership
pub mod Scheduling
pub mod Cancelling
pub mod Losses
pub mod Worker
pub mod Resources
pub mod Turns
pub mod Endings
pub mod Outcomes
mod Tests
