-- ===== src/Lib.antt =====
-- rann_agent: a model of the core of the RANN agent, a platform that runs autonomous agents.
--
-- A run of the agent is a lifecycle (rann_agent/core/lifecycle.py) over three objects: a state
-- machine (rann_agent/core/state.py), a budget engine (rann_agent/core/budget.py) and an event
-- emitter (rann_agent/core/events.py). Beside it stand the queue of jobs (rann_agent/storage/queue.py),
-- the cache in memory (rann_agent/cache/memory.py), the policy that each tool call is checked against
-- (rann_agent/orchestration/tool_policy.py), the graph of the tasks that agents share
-- (rann_agent/orchestration/task_graph.py), the store that they share
-- (rann_agent/orchestration/shared_context.py), the registry of the agents
-- (rann_agent/orchestration/agent_registry.py), the bus of their messages
-- (rann_agent/orchestration/message_bus.py), the engine that undoes what a task has done
-- (rann_agent/core/rollback_engine.py), the layer that lets calls of tools through
-- (rann_agent/core/tool_permission.py), the requests for approval (rann_agent/core/approval.py), what is
-- done about runs after a crash (rann_agent/storage/recovery.py), and the watch on the progress of a run
-- (rann_agent/planning/progress.py).
--
-- Files, by part of the program:
--   State/Values, Record, Machine: `AgentState`, `VALID_TRANSITIONS`, `StateTransitionRecord`,
--     `PersistedState` and `AgentStateMachine` of core/state.py. State/Transition, Reach and Restore
--     hold the proofs.
--   Budget/Tracker, Engine: `Budget`, `BudgetTracker` and `BudgetEngine` of core/budget.py.
--     Budget/Limits, Account and Warnings hold the proofs.
--   Events/Types, Event, Emitter, Helpers: core/events.py. Events/Counts holds the proofs.
--   Lifecycle/Defs, Methods: `AgentLifecycle` of core/lifecycle.py. Lifecycle/Emission, Run,
--     Checkpoint and Recovery hold the proofs.
--   Queue/Table, Methods: `DurableQueue` of storage/queue.py over the rows of its table. Queue/Board
--     has what it promises of its jobs, as the phases of Queue/Phase; these and Queue/Sound, Ended, First,
--     Claim and Owner hold the proofs.
--   Cache/Defs: `TTLCacheMixin` of cache/backend.py and `InMemoryCache` of cache/memory.py.
--     Cache/Bound and Lookup hold the proofs.
--   ToolPolicy/Defs: orchestration/tool_policy.py. ToolPolicy/Decision holds the proofs.
--   TaskGraph/Node, Edit: `TaskNode` and `TaskGraph` of orchestration/task_graph.py. TaskGraph/Cycles has
--     its `validate` and Batches its `get_parallel_batches`. TaskGraph/Ready, Blocked, Linked, Order,
--     Fuel, Valid, Texts, Halves and Layers hold the proofs.
--   SharedContext/Vector, Entry, Store: `VersionVector`, `ContextEntry` and `SharedContext` of
--     orchestration/shared_context.py. SharedContext/Order, Sets, Cas and Reload hold the proofs.
--   Rollback/Types, World, Record, Execute: the data of core/rollback_engine.py, the files that its
--     steps change, and the recording and the execution of `RollbackEngine`. Rollback/Stored, Outcome and
--     Restore hold the proofs.
--   Registry/Types, Methods, Queries: orchestration/agent_registry.py, the methods under the lock and those
--     that only read. Registry/Family, Tree, Unlinked, Removal, Reach and Stuck hold the
--     proofs.
--   Bus/Message, Methods: orchestration/message_bus.py, but for the priority queue. Bus/Delivery and
--     Unsubscribed hold the proofs.
--   Permission/Types, Layer: core/tool_permission.py. Permission/Decision, Execution and Log hold the
--     proofs.
--   Approval/Defs: `ApprovalSystem` of core/approval.py. Approval/Decisions holds the proofs.
--   CrashRecovery/Defs: `CrashRecovery` of storage/recovery.py. CrashRecovery/Reconciled holds the proofs.
--   Progress/Defs: `ProgressEngine` of planning/progress.py. Progress/History holds the proofs.
--   Prelude, Dict (Python's dict with text keys, in insertion order), Exec (methods that change an
--     object and may raise) and Json are shared. Each `Examples` module holds tests and witnesses.
--
-- A method is a function of the object, and gives the object back; one that may raise gives a
-- `Result` beside it, and keeps what was written before the exception. Attributes that a method does
-- not touch are in the record all the same. Time, identifiers and the outcome of writing a file are
-- arguments of the method that asks for them.
--
-- Reading a dictionary back fails where a value has another type than the one that is written; Python
-- lets some of these pass.
--
-- Floats: times are whole microseconds and costs millionths of a dollar, and the warning threshold
-- is a fraction; a clock does not go back. Numbers that the program never makes negative are natural.
-- `datetime.isoformat` and `fromisoformat` are the parameter `IsoFormat`, whose laws are that a
-- time is read back as it was written and that its text is not empty. `str(e)` is a parameter too. The
-- callback of a recovery may raise, by a parameter; the other callbacks are taken to return.
--
-- The table of the queue is the list of its rows in the order of their insertion; a statement reads or
-- writes it at once, and of rows that `ORDER BY` does not tell apart the first one is taken. Times in it
-- are numbers, which are in the order of their ISO texts. Priorities are natural. A cached `None` is
-- `none`. A set of texts is a list.
--
-- The rollback engine asks the system for the outcome of commands, of `rmtree` and of writing and removing
-- files, for `Path.resolve` and for the hash of a text: these are the fields of the parameter `System`. A
-- theorem that needs writes to succeed has that as its hypothesis `Writable`. A file has a text, or
-- cannot be read as one. The engine's own files of procedures are left out. `SharedContext` reads its
-- clock once in each call; its files are written at once, or not at all.
--
-- A call of the registry that gets the lock runs to its end, since nothing under the lock awaits anything
-- but a nested `deregister`; so the lock is only ever found held where a call waits for itself. The nesting
-- of `deregister` is bounded by fuel, of which two are enough. The permission layer asks `Texts` for
-- `str.lower`, for whether a text is in another, and for the text of the arguments; a pending call is the
-- same object as the one in the log, and is kept as its place there.
--
-- The bus is modelled from the point where a message has been taken from the queue. A handler is a name,
-- with the parameter `raises` for its outcome, and its calls are recorded; `fnmatch` is the parameter
-- `matches`.
--
-- The search for cycles recurses on fuel, one more than the graph has tasks: each nested call makes a
-- white task grey, so there are no more of them than tasks. Python's limit of recursion is left out.
-- The loop over batches has the same fuel, since each batch takes a task away.
--
-- Other parameters: `mentions`, for a word in the lower case of a text, in the progress engine; the storage
-- of the crash recovery, each of whose methods answers or raises, `Database` of storage/database.py
-- being one that has none of them. The approval system is modelled without a storage.
--
-- Not modelled: the topological sort and the critical path of the task graph, logging,
-- the texts of reasons and warnings (their figures are), HTTP, terminals, Docker and SQLite
-- connections, calls of models, and the parts that the manifest lists as such.
pub mod Prelude
pub mod Dict
pub mod Exec
pub mod Json
pub mod State
pub mod Budget
pub mod Events
pub mod Lifecycle
pub mod Queue
pub mod Cache
pub mod ToolPolicy
pub mod TaskGraph
pub mod Rollback
pub mod SharedContext
pub mod Registry
pub mod Permission
pub mod Bus
pub mod Approval
pub mod CrashRecovery
pub mod Progress
