-- ===== src/Orchestrator.antt =====
-- internal/orchestrator: the run loop, the authority checks and the recovery after a restart.
pub mod Authority
pub mod World
pub mod Format
pub mod Terminal
pub mod Attempts
pub mod Observe
pub mod Run
pub mod Launch
pub mod Recovery
pub mod Resume
mod Tests
