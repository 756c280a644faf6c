-- ===== src/Phase1.antt =====
-- src/orchestrator/phase1: the planning of a turn, its memory operations and its tool calls.
pub mod Memory
pub mod Merge
mod Parts
pub mod Writes
pub mod Onboarding
pub mod Reply
pub mod Progress
pub mod Completes
pub mod Normal
pub mod Planner
pub mod Stub
pub mod Tools
pub mod Browse
pub mod Safety
pub mod Directives
pub mod StubPlan
pub mod Confirm
pub mod Model
pub mod Plan
pub mod Asked
pub mod Planned
pub mod Harmless
pub mod PlanSafety
mod Tests
