-- ===== src/Registry.antt =====
-- rann_agent/orchestration/agent_registry.py: the agents of a session and the tree that they form.
-- `Types` has the agents, `Methods` the methods under the lock, `Queries` what only reads; the proofs
-- stand in the other children.
pub mod Types
pub mod Methods
pub mod Queries
pub mod Family
pub mod Tree
pub mod Unlinked
pub mod Removal
pub mod Reach
pub mod Stuck
mod Examples
