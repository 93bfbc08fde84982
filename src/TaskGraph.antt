-- ===== src/TaskGraph.antt =====
-- rann_agent/orchestration/task_graph.py: tasks and their dependencies. `Node` has the tasks and the
-- queries that read them, `Edit` the methods that change the graph, `Cycles` its validation and
-- `Batches` the tasks that can run at once; `Ready` and `Blocked` are about what can run and what
-- cannot, `Linked` about the edges, `Order`, `Fuel` and `Valid` about the validation, and `Texts`,
-- `Halves` and `Layers` about the batches.
pub mod Node
pub mod Edit
pub mod Ready
pub mod Blocked
pub mod Linked
pub mod Cycles
pub mod Order
pub mod Valid
pub mod Fuel
pub mod Batches
pub mod Texts
pub mod Halves
pub mod Layers
mod Examples
