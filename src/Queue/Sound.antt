-- ===== src/Queue/Sound.antt =====
-- About the columns of a row and its status, over the methods of rann_agent/storage/queue.py.
use rann_agent.Prelude.{
  ℕ, String, ◌≡◌, refl, Bool, true, false, Option, none, some, List, [], ◌∷◌, is_some, All,
  All-append, arith, if◌then◌else◌, Bool-cases, Option-cases, inl, inr,
}
use rann_agent.Queue.Table.{
  JobStatus, pending, running, completed, failed, cancelled, status_is, Row, is_held, update,
  select_pending, select_job,
}
use rann_agent.Queue.Methods.{
  enqueue, claim, claimed_by, beat, finished, retried, failed_with, cancelled_at, reset, dequeue,
  heartbeat, complete, fail, cancel, cleanup_stale,
}

-- A call of a method that changes the table.
pub data Op : Type 0 where
  enqueue_op : (job_id task_json : String) (now priority : ℕ) → Op
  dequeue_op : (worker_id : String) (now : ℕ) → Op
  heartbeat_op : (job_id worker_id : String) (now : ℕ) → Op
  complete_op : (job_id worker_id : String) (result : Option String) (now : ℕ) → Op
  fail_op : (job_id worker_id error : String) (retry : Bool) (now : ℕ) → Op
  cancel_op : (job_id : String) (now : ℕ) → Op
  cleanup_op : (now stale : ℕ) → Op

abbrev or_same : List Row → Option (List Row) → List Row
or_same t none = t
or_same t (some t') = t'

unfoldable pub step : Op → List Row → List Row
step (enqueue_op job_id task_json now priority) t =
    or_same t (enqueue job_id task_json now priority t)
step (dequeue_op worker_id now) t = (dequeue worker_id now t).0
step (heartbeat_op job_id worker_id now) t = (heartbeat job_id worker_id now t).0
step (complete_op job_id worker_id result now) t = (complete job_id worker_id result now t).0
step (fail_op job_id worker_id error retry now) t = (fail job_id worker_id error retry now t).0
step (cancel_op job_id now) t = (cancel job_id now t).0
step (cleanup_op now stale) t = (cleanup_stale now stale t).0

unfoldable pub steps : List Op → List Row → List Row
steps [] t = t
steps (o ∷ os) t = steps os (step o t)

-- A pending row has no worker, a running one has a worker and a heartbeat, and one that has ended
-- has the time of its end.
abbrev SoundAs : JobStatus → Row → Type 0
SoundAs pending r = r.worker_id ≡ none
SoundAs running r = (is_some r.worker_id ≡ true) × (is_some r.heartbeat_at ≡ true)
SoundAs completed r = is_some r.completed_at ≡ true
SoundAs failed r = is_some r.completed_at ≡ true
SoundAs cancelled r = is_some r.completed_at ≡ true

abbrev pub IsSound : Row → Type 0
IsSound r = SoundAs r.status r

update-All :
    (P : Row → Type 0) (test : Row → Bool) (change : Row → Row)
    → ((r : Row) → test r ≡ true → P r → P (change r))
    → (t : List Row) → All P t
    → All P (update test change t)
unfolding update
update-All P test change keep [] h = tt
update-All P test change keep (r ∷ rs) (h, hs) =
    (changed (test r) refl, update-All P test change keep rs hs)
  where
    changed : (b : Bool) → test r ≡ b → P (if b then change r else r)
    changed true e = keep r e h
    changed false e = h

beat-IsSound :
    (j w : String) (now : ℕ) (r : Row) → is_held j w r ≡ true → IsSound r → IsSound (beat now r)
unfolding is_held status_is
beat-IsSound j w now r e s = ground arith

dequeue-IsSound :
    (w : String) (now : ℕ) (t : List Row) → All IsSound t → All IsSound (dequeue w now t).0
unfolding dequeue claim
dequeue-IsSound w now t h = elim (Option-cases (select_pending t)) [
  | inl e ↦ rw e h
  | inr (row, e) ↦ rw e (update-All IsSound _ (claimed_by w now) (λ r e s. (refl, refl)) t h)
]

step-IsSound : (o : Op) (t : List Row) → All IsSound t → All IsSound (step o t)
unfolding step enqueue heartbeat complete fail cancel cleanup_stale
step-IsSound (enqueue_op j x now p) t h = elim (Bool-cases (is_some (select_job j t))) [
  | inl e ↦ rw e h
  | inr e ↦ rw e (All-append IsSound t _ h (refl, tt))
]
step-IsSound (dequeue_op w now) t h = dequeue-IsSound w now t h
step-IsSound (heartbeat_op j w now) t h =
    update-All IsSound (is_held j w) (beat now) (λ r e s. beat-IsSound j w now r e s) t h
step-IsSound (complete_op j w x now) t h =
    update-All IsSound (is_held j w) (finished x now) (λ r e s. refl) t h
step-IsSound (fail_op j w x true now) t h =
    update-All IsSound (is_held j w) (retried x) (λ r e s. refl) t h
step-IsSound (fail_op j w x false now) t h =
    update-All IsSound (is_held j w) (failed_with x now) (λ r e s. refl) t h
step-IsSound (cancel_op j now) t h = update-All IsSound _ (cancelled_at now) (λ r e s. refl) t h
step-IsSound (cleanup_op now stale) t h = update-All IsSound _ reset (λ r e s. refl) t h

-- Whatever is done to the queue, from a table where it holds: a pending row has no worker, a running
-- one has a worker and a heartbeat, and one that has ended has the time of its end.
pub steps-IsSound : (os : List Op) (t : List Row) → All IsSound t → All IsSound (steps os t)
unfolding steps
steps-IsSound [] t h = h
steps-IsSound (o ∷ os) t h = steps-IsSound os (step o t) (step-IsSound o t h)
