-- ===== src/Events.antt =====
-- rann_agent/core/events.py: the structured events of a run and the emitter that counts and keeps
-- them.
pub mod Types
pub mod Event
pub mod Emitter
pub mod Helpers
pub mod Counts
mod Examples
