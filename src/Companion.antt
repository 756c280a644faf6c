-- ===== src/Companion.antt =====
-- src/orchestrator/companion.py and context_client.py: the companion's turn, its tools and its
-- memory. Types says how calls of other services are modelled.
pub mod Types
pub mod Context
pub mod Registry
pub mod Memory
pub mod Recall
pub mod Design
pub mod Executor
pub mod Dispatch
pub mod Session
pub mod Downstream
pub mod Process
mod Guard
pub mod Kept
mod Recent
mod Numbered
mod Tests
pub mod Aside
mod Tools
mod Guarded
mod Executed
