-- ===== src/Workflow.antt =====
-- src/orchestrator/phase7: plans that are approved, executed against a provider, retried and
-- cancelled.
pub mod Provider
pub mod Types
pub mod Plan
pub mod Engine
mod Cases
pub mod Planning
pub mod Approval
pub mod Reach
pub mod Disclosure
pub mod Completion
pub mod Recovery
pub mod Cancellation
mod Tests
