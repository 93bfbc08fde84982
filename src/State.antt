-- ===== src/State.antt =====
-- rann_agent/core/state.py: the states of a run and the state machine that keeps its history and
-- its state file. `Values` has the states and their table, `Record` the entries of the history and
-- their dictionaries, `Machine` the operations; the proofs stand in the other children.
pub mod Values
pub mod Record
pub mod Machine
pub mod Transition
pub mod Reach
pub mod Restore
mod Examples
