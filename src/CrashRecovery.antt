-- ===== src/CrashRecovery.antt =====
-- rann_agent/storage/recovery.py: what is done about the runs that a crash has left. `Defs` has the
-- methods, `Reconciled` the proofs.
pub mod Defs
pub mod Reconciled
mod Examples
