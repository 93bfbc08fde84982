-- ===== src/ToolPolicy.antt =====
-- rann_agent/orchestration/tool_policy.py: which tool calls are allowed, and how often.
pub mod Defs
pub mod Decision
mod Examples
