-- ===== src/Payments.antt =====
-- src/orchestrator/payments: transactions, their providers and the service in front of them.
pub mod Types
pub mod Provider
pub mod Metadata
pub mod Service
pub mod Listed
pub mod Agreement
pub mod Guards
mod Tests
