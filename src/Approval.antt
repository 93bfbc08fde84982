-- ===== src/Approval.antt =====
-- rann_agent/core/approval.py: the requests for approval of dangerous operations. `Defs` has the system,
-- `Decisions` the proofs.
pub mod Defs
pub mod Decisions
mod Examples
