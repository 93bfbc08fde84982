-- ===== src/Permission.antt =====
-- rann_agent/core/tool_permission.py: which calls of tools are let through, and the log of them. `Types`
-- has the tools and the calls, `Layer` the methods; the proofs stand in the other children.
pub mod Types
pub mod Layer
pub mod Decision
pub mod Execution
pub mod Log
mod Examples
