-- ===== src/Progress.antt =====
-- rann_agent/planning/progress.py: the iterations of a run, and when it has stalled. `Defs` has the
-- engine, `History` the proofs.
pub mod Defs
pub mod History
mod Examples
