-- ===== src/Queue.antt =====
-- rann_agent/storage/queue.py: the durable job queue. `Table` has the rows and the SQL statements,
-- `Methods` the methods; the proofs stand in the other children.
pub mod Table
pub mod Methods
pub mod Sound
pub mod First
pub mod Claim
pub mod Ended
pub mod Owner
pub mod Phase
pub mod Board
mod Examples
