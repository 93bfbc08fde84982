-- ===== src/SharedContext.antt =====
-- rann_agent/orchestration/shared_context.py: the store that agents share. `Vector` has the version
-- vectors, `Entry` the entries and their dictionaries, `Store` the operations; the proofs stand in the
-- other children.
pub mod Vector
pub mod Entry
pub mod Store
pub mod Order
pub mod Sets
pub mod Cas
pub mod Reload
mod Examples
