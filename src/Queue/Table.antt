-- ===== src/Queue/Table.antt =====
-- The table `jobs` of rann_agent/storage/queue.py, and the statements that the queue runs on it.
-- Rows stand in the order of their insertion. Times are microseconds: as ISO texts of UTC they are
-- compared in the same order. `NULL` is `none`, and a comparison with it does not hold.
use rann_agent.Prelude.{
  ℕ, ◌+◌, String, Bool, true, false, ◌&&◌, ◌||◌, Option, none, some, List, [], ◌∷◌, str_eq, ltb,
  ◌==◌, if◌then◌else◌,
}

pub data JobStatus : Type 0 where
  pending running completed failed cancelled : JobStatus

unfoldable pub status_is : JobStatus → JobStatus → Bool
status_is pending pending = true
status_is running running = true
status_is completed completed = true
status_is failed failed = true
status_is cancelled cancelled = true
status_is _ _ = false

-- One row; `task_json` and `result_json` are the texts that `json.dumps` gives.
pub record Row : Type 0 where
  pub job_id : String
  pub task_id : String
  pub task_json : String
  pub worker_id : Option String
  pub status : JobStatus
  pub created_at : ℕ
  pub started_at : Option ℕ
  pub completed_at : Option ℕ
  pub heartbeat_at : Option ℕ
  pub error : Option String
  pub retry_count : ℕ
  pub priority : ℕ
  pub result_json : Option String

-- `worker_id = ?`
unfoldable pub worker_is : String → Option String → Bool
worker_is w none = false
worker_is w (some v) = str_eq v w

-- `heartbeat_at < ?`
unfoldable pub before : ℕ → Option ℕ → Bool
before cutoff none = false
before cutoff (some t) = ltb t cutoff

-- `WHERE job_id=? AND worker_id=? AND status='running'`
unfoldable pub is_held : String → String → Row → Bool
unfolding worker_is status_is
is_held job_id worker_id r =
    str_eq r.job_id job_id && worker_is worker_id r.worker_id && status_is r.status running

-- `WHERE status IN ('pending', 'running')`
unfoldable pub is_live : Row → Bool
unfolding status_is
is_live r = status_is r.status pending || status_is r.status running

-- `UPDATE jobs SET … WHERE …`, and its `rowcount`.
unfoldable pub update : (Row → Bool) → (Row → Row) → List Row → List Row
update test change [] = []
update test change (r ∷ rs) = (if test r then change r else r) ∷ update test change rs

unfoldable pub rowcount : (Row → Bool) → List Row → ℕ
rowcount test [] = 0
rowcount test (r ∷ rs) = (if test r then 1 else 0) + rowcount test rs

-- `ORDER BY priority DESC, created_at`: `a` comes before `b`.
unfoldable pub precedes : Row → Row → Bool
precedes a b =
    ltb b.priority a.priority || a.priority == b.priority && ltb a.created_at b.created_at

abbrev pub better : Row → Option Row → Row
better r none = r
better r (some b) = if precedes b r then b else r

-- `SELECT * FROM jobs WHERE status='pending' ORDER BY priority DESC, created_at ASC LIMIT 1`; of rows
-- that are alike in both, the one that was inserted first.
unfoldable pub select_pending : List Row → Option Row
unfolding status_is precedes
select_pending [] = none
select_pending (r ∷ rs) =
    let rest = select_pending rs in
    if status_is r.status pending then some (better r rest) else rest

-- `SELECT * FROM jobs WHERE job_id=?`
unfoldable pub select_job : String → List Row → Option Row
select_job job_id [] = none
select_job job_id (r ∷ rs) =
    let rest = select_job job_id rs in if str_eq r.job_id job_id then some r else rest

-- A stable sort: a row goes before the first row that does not precede it.
unfoldable pub insert_row : (Row → Row → Bool) → Row → List Row → List Row
insert_row before r [] = r ∷ []
insert_row before r (s ∷ rs) =
    let rest = insert_row before r rs in if before s r then s ∷ rest else r ∷ s ∷ rs

unfoldable pub sort_rows : (Row → Row → Bool) → List Row → List Row
unfolding insert_row
sort_rows before [] = []
sort_rows before (r ∷ rs) = insert_row before r (sort_rows before rs)
