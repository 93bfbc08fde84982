-- ===== src/Queue/Methods.antt =====
-- `DurableQueue` of rann_agent/storage/queue.py. A method takes the table and gives it back; new
-- identifiers and the time are arguments. Each method runs its statements with no other worker in
-- between, but for `dequeue`, whose two statements are two functions.
use rann_agent.Prelude.{
  map, ℕ, ◌+◌, ◌-◌, String, Bool, true, false, ◌&&◌, Option, none, some, List, [], ◌∷◌, ◌++◌,
  str_eq, ltb, is_some, take, if◌then◌else◌, filterb,
}
use rann_agent.Queue.Table.{
  pending, running, completed, failed, cancelled, status_is, Row, before, is_held, is_live, update,
  rowcount, select_pending, select_job, precedes, sort_rows,
}

-- `enqueue`; `none` is the error of the primary key.
unfoldable pub enqueue :
    (job_id task_json : String) (now priority : ℕ) → List Row → Option (List Row)
unfolding select_job
enqueue job_id task_json now priority t =
    if is_some (select_job job_id t)
    then none
    else some (
        t
        ++ record {
          job_id = job_id;
          task_id = job_id;
          task_json = task_json;
          worker_id = none;
          status = pending;
          created_at = now;
          started_at = none;
          completed_at = none;
          heartbeat_at = none;
          error = none;
          retry_count = 0;
          priority = priority;
          result_json = none;
        }
          ∷ [])

-- What the `SET` clauses write.
abbrev pub claimed_by : String → ℕ → Row → Row
claimed_by worker_id now r = record r {
  status = running;
  worker_id = some worker_id;
  started_at = some now;
  heartbeat_at = some now;
}

abbrev pub beat : ℕ → Row → Row
beat now r = record r { heartbeat_at = some now }

abbrev pub finished : Option String → ℕ → Row → Row
finished result_json now r = record r {
  status = completed;
  completed_at = some now;
  result_json = result_json;
}

abbrev pub retried : String → Row → Row
retried error r = record r {
  status = pending;
  error = some error;
  retry_count = r.retry_count + 1;
  worker_id = none;
}

abbrev pub failed_with : String → ℕ → Row → Row
failed_with error now r = record r { status = failed; error = some error; completed_at = some now }

abbrev pub cancelled_at : ℕ → Row → Row
cancelled_at now r = record r { status = cancelled; completed_at = some now }

abbrev pub reset : Row → Row
reset r = record r { status = pending; worker_id = none }

-- The `UPDATE` of `dequeue`, for the row that its `SELECT` found.
unfoldable pub claim : String → ℕ → Row → List Row → List Row
unfolding update status_is
claim worker_id now row =
    update (λ r. str_eq r.job_id row.job_id && status_is r.status pending)
      (claimed_by worker_id now)

-- The job that `dequeue` returns for the row, whatever its `UPDATE` came to.
unfoldable pub claimed_job : String → ℕ → Row → Row
claimed_job worker_id now row = record row {
  worker_id = some worker_id;
  status = running;
  started_at = some now;
  completed_at = none;
  heartbeat_at = some now;
  error = none;
  result_json = none;
}

abbrev dequeue_found : String → ℕ → Option Row → List Row → List Row × Option Row
dequeue_found worker_id now none t = (t, none)
dequeue_found worker_id now (some row) t =
    (claim worker_id now row t, some (claimed_job worker_id now row))

-- `dequeue`, its two statements with nothing in between.
unfoldable pub dequeue : String → ℕ → List Row → List Row × Option Row
dequeue worker_id now t = dequeue_found worker_id now (select_pending t) t

unfoldable pub heartbeat : (job_id worker_id : String) → ℕ → List Row → List Row × Bool
unfolding update rowcount is_held
heartbeat job_id worker_id now t =
    (update (is_held job_id worker_id) (beat now) t, ltb 0 (rowcount (is_held job_id worker_id) t))

unfoldable pub complete :
    (job_id worker_id : String) → Option String → ℕ → List Row → List Row × Bool
unfolding update rowcount is_held
complete job_id worker_id result_json now t = (
  update (is_held job_id worker_id) (finished result_json now) t,
  ltb 0 (rowcount (is_held job_id worker_id) t),
)

-- `fail`, which answers True whatever its `UPDATE` came to.
unfoldable pub fail :
    (job_id worker_id error : String) (retry : Bool) → ℕ → List Row → List Row × Bool
unfolding update is_held
fail job_id worker_id error retry now t =
    if retry
    then (update (is_held job_id worker_id) (retried error) t, true)
    else (update (is_held job_id worker_id) (failed_with error now) t, true)

unfoldable pub cancel : String → ℕ → List Row → List Row × Bool
unfolding update rowcount is_live
cancel job_id now t = (
  update (λ r. str_eq r.job_id job_id && is_live r) (cancelled_at now) t,
  ltb 0 (rowcount (λ r. str_eq r.job_id job_id && is_live r) t),
)

-- `_row_to_job`: a job has every column of its row but `result_json`.
unfoldable pub job_of : Row → Row
job_of r = record r { result_json = none }

unfoldable pub get_status : String → List Row → Option Row
unfolding select_job job_of
get_status job_id t = elim (select_job job_id t) [ none ↦ none | some r ↦ some (job_of r) ]

unfoldable pub list_pending : ℕ → List Row → List Row
unfolding sort_rows precedes status_is job_of
list_pending limit t =
    map job_of (take limit (sort_rows precedes (filterb (λ r. status_is r.status pending) t)))

-- `started_at` in order, where `NULL` comes first.
unfoldable pub starts_before : Row → Row → Bool
starts_before a b = elim b.started_at [
  | none ↦ false
  | some t ↦ elim a.started_at [ none ↦ true | some s ↦ ltb s t ]
]

unfoldable pub list_running : List Row → List Row
unfolding sort_rows status_is starts_before job_of
list_running t = map job_of (sort_rows starts_before (filterb (λ r. status_is r.status running) t))

-- A running row whose last heartbeat is before the cutoff.
unfoldable pub is_stale : ℕ → Row → Bool
unfolding status_is before
is_stale cutoff r = status_is r.status running && before cutoff r.heartbeat_at

-- `cleanup_stale`, for the time `now` and an age in microseconds.
unfoldable pub cleanup_stale : ℕ → ℕ → List Row → List Row × ℕ
unfolding update rowcount is_stale
cleanup_stale now stale t =
    (update (is_stale (now - stale)) reset t, rowcount (is_stale (now - stale)) t)
