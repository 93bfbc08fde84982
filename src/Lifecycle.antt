-- ===== src/Lifecycle.antt =====
-- rann_agent/core/lifecycle.py: one run of the agent, over the state machine, the event emitter and
-- the budget engine. `Defs` has the object and the helpers, `Methods` the methods; the proofs stand
-- in the other children.
pub mod Defs
pub mod Methods
pub mod Emission
pub mod Run
pub mod Checkpoint
pub mod Recovery
mod Examples
