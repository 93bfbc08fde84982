-- ===== src/Rollback.antt =====
-- rann_agent/core/rollback_engine.py: what is recorded before a change, and how it is undone. `Types`
-- has the steps and procedures with their dictionaries, `World` the files and what the engine asks of
-- the system, `Record` the recording, `Execute` the execution; the proofs stand in the other children.
pub mod Types
pub mod World
pub mod Record
pub mod Execute
pub mod Stored
pub mod Outcome
pub mod Restore
mod Examples
