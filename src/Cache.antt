-- ===== src/Cache.antt =====
-- rann_agent/cache/memory.py, over the mixin of rann_agent/cache/backend.py: a bounded cache whose
-- entries expire. `Defs` has the entries and the methods; the proofs stand in the other children.
pub mod Defs
pub mod Bound
pub mod Lookup
mod Examples
