-- ===== src/Router.antt =====
-- src/router.py: the choice of the skill that an intent goes to. The floats and what else the
-- router takes from Python's runtime are an instance argument.
pub mod Runtime
pub mod Types
pub mod Rules
pub mod Score
pub mod Hybrid
pub mod Service
mod Best
mod Winner
mod Highest
mod Routed
mod Matched
mod Counters
mod Tests
