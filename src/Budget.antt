-- ===== src/Budget.antt =====
-- rann_agent/core/budget.py: the limits of a run and what it has used of them.
-- Times are microseconds and costs millionths of a dollar, in place of the floats; a clock does not
-- go back. The warning threshold is a fraction. The texts of reasons and warnings are data.
pub mod Tracker
pub mod Engine
pub mod Limits
pub mod Account
pub mod Warnings
mod Examples
