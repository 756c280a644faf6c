-- ===== src/Skills.antt =====
-- src/orchestrator/skills.py: the skills that an orchestrator has, each a step of the companion's
-- state that may raise.
pub mod Types
pub mod Basic
pub mod Person
pub mod Action
pub mod Comms
pub mod Messages
pub mod Dashboard
pub mod Startup
pub mod Registered
mod Still
mod StillComms
mod Actuated
mod Erased
mod Advertised
mod Verified
mod Tests
