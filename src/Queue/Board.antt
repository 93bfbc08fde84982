-- ===== src/Queue/Board.antt =====
-- What rann_agent/storage/queue.py promises of its jobs, without times, priorities and results: each job
-- waits, is held by a worker, or is over; and that the table keeps this promise.
use rann_agent.Prelude.{
  ℕ, ◌-◌, String, ◌≡◌, ◌⊎◌, refl, Bool, true, false, some, List, [], ◌∷◌, ◌++◌, is_some, eq_iff,
  arith, Bool-cases, Option-cases, inl, inr, ◌↔◌,
}
use rann_agent.Queue.Table.{
  completed, failed, cancelled, Row, is_held, update, select_pending, select_job,
}
use rann_agent.Queue.Methods.{
  enqueue, claim, claimed_by, beat, finished, retried, failed_with, cancelled_at, reset, dequeue,
  heartbeat, complete, fail, cancel, cleanup_stale, is_stale,
}
use rann_agent.Queue.Sound.{
  Op, enqueue_op, dequeue_op, heartbeat_op, complete_op, fail_op, cancel_op, cleanup_op, step,
  steps,
}
use rann_agent.Queue.Phase.{
  Phase, waiting, held, over, IsHeldBy, IsLive, IsStale, phase, is_pending, held_row, held_beat,
  unheld_row, IsLive-row, ended_row, IsStale-row, fresh_row,
}

-- The jobs in the order in which they came.
abbrev pub Board : Type 0
Board = List (String × Phase)

-- The jobs that a call is about: those that its worker holds, those that are not over, or those whose
-- last heartbeat is older than the call says.
abbrev pub Concerns : Op → String → Phase → Type 0
Concerns (enqueue_op id x now priority) j p = ⊥
Concerns (dequeue_op w now) j p = ⊥
Concerns (heartbeat_op id w now) j p = (j ≡ id) × IsHeldBy w p
Concerns (complete_op id w x now) j p = (j ≡ id) × IsHeldBy w p
Concerns (fail_op id w e retry now) j p = (j ≡ id) × IsHeldBy w p
Concerns (cancel_op id now) j p = (j ≡ id) × IsLive p
Concerns (cleanup_op now stale) j p = IsStale (now - stale) p

-- What becomes of such a job.
abbrev pub becomes : Op → Phase → Phase
becomes (heartbeat_op id w now) p = held (some w) (some now)
becomes (complete_op id w x now) p = over completed
becomes (fail_op id w e true now) p = waiting
becomes (fail_op id w e false now) p = over failed
becomes (cancel_op id now) p = over cancelled
becomes (cleanup_op now stale) p = waiting
becomes _ p = p

-- A waiting job may be taken by a dequeue; nothing else happens to a job that a call is not about.
abbrev pub IsTaken : Op → Phase → Phase → Type 0
IsTaken (dequeue_op w now) p q = (p ≡ waiting) × (q ≡ held (some w) (some now))
IsTaken _ p q = ⊥

-- The job that a call may add.
abbrev pub Added : Op → String × Phase → Type 0
Added (enqueue_op id x now priority) (j, p) = (j ≡ id) × (p ≡ waiting)
Added _ _ = ⊥

-- A step of the board: every job that the call is about becomes what the call makes of it, every other
-- one stays, but for a waiting one that may be taken, and at the end of the board one job may be added.
abbrev pub Moves : Op → Board → Board → Type 0
Moves o [] [] = Unit
Moves o [] (x ∷ []) = Added o x
Moves o [] (x ∷ y ∷ b) = ⊥
Moves o (x ∷ b) [] = ⊥
Moves o ((j, p) ∷ b) ((k, q) ∷ c) =
    (k ≡ j)
    × ((Concerns o j p × (q ≡ becomes o p)) ⊎ ((¬ Concerns o j p) × ((q ≡ p) ⊎ IsTaken o p q)))
    × Moves o b c

-- A run of the board.
abbrev pub Runs : List Op → Board → Board → Type 0
Runs [] b c = c ≡ b
Runs (o ∷ os) b c = (m : Board) × Moves o b m × Runs os m c

-- The board of a table.
abbrev pub board : List Row → Board
board [] = []
board (r ∷ t) = (r.job_id, phase r) ∷ board t

-- A call that is about no job, and takes none.
Moves-refl : (o : Op) → ((j : String) (p : Phase) → ¬ Concerns o j p) → (b : Board) → Moves o b b
Moves-refl o n [] = tt
Moves-refl o n ((j, p) ∷ b) = (refl, inr (n j p, inl refl), Moves-refl o n b)

Moves-append :
    (o : Op) (t : List Row) (r : Row)
    → ((j : String) (p : Phase) → ¬ Concerns o j p)
    → Added o (r.job_id, phase r)
    → Moves o (board t) (board (t ++ (r ∷ [])))
Moves-append o [] r n h = h
Moves-append o (s ∷ t) r n h = (refl, inr (n s.job_id (phase s), inl refl), Moves-append o t r n h)

-- What a call does to one job.
abbrev Moved : Op → String → Phase → Phase → Type 0
Moved o j p q =
    (Concerns o j p × (q ≡ becomes o p)) ⊎ ((¬ Concerns o j p) × ((q ≡ p) ⊎ IsTaken o p q))

-- An UPDATE is a step where it changes each row that it hits as the call may, and the call is about no
-- other.
update-Moves :
    (o : Op) (test : Row → Bool) (change : Row → Row)
    → ((r : Row)
        → test r ≡ true
        → ((change r).job_id ≡ r.job_id) × Moved o r.job_id (phase r) (phase (change r)))
    → ((r : Row) → test r ≡ false → ¬ Concerns o r.job_id (phase r))
    → (t : List Row) → Moves o (board t) (board (update test change t))
unfolding update
update-Moves o test change h n [] = tt
update-Moves o test change h n (r ∷ t) = elim (Bool-cases (test r)) [
  | inl e ↦ rw e ((h r e).0, (h r e).1, update-Moves o test change h n t)
  | inr e ↦ rw e (refl, inr (n r e, inl refl), update-Moves o test change h n t)
]

dequeue-Moves :
    (w : String) (now : ℕ) (t : List Row)
    → Moves (dequeue_op w now) (board t) (board (dequeue w now t).0)
unfolding dequeue claim
dequeue-Moves w now t = elim (Option-cases (select_pending t)) [
  | inl e ↦ rw (e, board) (Moves-refl (dequeue_op w now) (λ j p c. c) (board t))
  | inr (row, e) ↦
      rw (e, board)
        (update-Moves (dequeue_op w now) _ (claimed_by w now)
          (λ r h. (refl, inr (λ c. c, inr (is_pending r (ground (arith, h)), refl)))) (λ r h c. c)
          t)
]

-- An UPDATE of the row that a worker holds.
held-Moves :
    (o : Op) (j w : String) (change : Row → Row)
    → ((r : Row)
        → is_held j w r ≡ true
        → ((change r).job_id ≡ r.job_id) × (phase (change r) ≡ becomes o (phase r)))
    → ((i : String) (p : Phase) → Concerns o i p ↔ ((i ≡ j) × IsHeldBy w p))
    → (t : List Row) → Moves o (board t) (board (update (is_held j w) change t))
held-Moves o j w change h c t =
    update-Moves o (is_held j w) change
      (λ r e. ((h r e).0, inl ((c r.job_id (phase r)).1 (held_row j w r e), (h r e).1)))
      (λ r e x. unheld_row j w r e ((c r.job_id (phase r)).0 x)) t

step-Moves : (o : Op) (t : List Row) → Moves o (board t) (board (step o t))
unfolding step enqueue dequeue claim heartbeat complete fail cancel cleanup_stale
step-Moves (enqueue_op j x now p) t = elim (Bool-cases (is_some (select_job j t))) [
  | inl e ↦ rw e (Moves-refl (enqueue_op j x now p) (λ i q c. c) (board t))
  | inr e ↦ rw e (Moves-append (enqueue_op j x now p) t _ (λ i q c. c) (refl, refl))
]
step-Moves (dequeue_op w now) t = dequeue-Moves w now t
step-Moves (heartbeat_op j w now) t =
    held-Moves (heartbeat_op j w now) j w (beat now) (λ r e. (refl, held_beat j w now r e))
      (λ i p. (λ c. c, λ c. c)) t
step-Moves (complete_op j w x now) t =
    held-Moves (complete_op j w x now) j w (finished x now) (λ r e. (refl, refl))
      (λ i p. (λ c. c, λ c. c)) t
step-Moves (fail_op j w x true now) t =
    held-Moves (fail_op j w x true now) j w (retried x) (λ r e. (refl, refl))
      (λ i p. (λ c. c, λ c. c)) t
step-Moves (fail_op j w x false now) t =
    held-Moves (fail_op j w x false now) j w (failed_with x now) (λ r e. (refl, refl))
      (λ i p. (λ c. c, λ c. c)) t
step-Moves (cancel_op j now) t =
    update-Moves (cancel_op j now) _ (cancelled_at now)
      (λ r h. (
        refl,
        inl (((eq_iff r.job_id j).0 (ground (arith, h)), IsLive-row r (ground (arith, h))), refl),
      ))
      (λ r n (e, l). ended_row r (ground (arith, n, (eq_iff r.job_id j).1 e)) l) t
step-Moves (cleanup_op now stale) t =
    update-Moves (cleanup_op now stale) (is_stale (now - stale)) reset
      (λ r h. (refl, inl (IsStale-row (now - stale) r h, refl)))
      (λ r n. fresh_row (now - stale) r n) t

-- Whatever is done to the queue, its board runs as the calls may move it: a job is added waiting; a
-- dequeue takes only jobs that wait, for its worker; heartbeat, complete and fail make of the job of that
-- name that their worker holds what they should, and of no other; cancel ends that job exactly if it is
-- not over; and cleanup_stale lets exactly those wait again whose last heartbeat is older than its
-- cutoff. No job goes, changes its place, or changes in any other way.
pub steps-Runs : (os : List Op) (t : List Row) → Runs os (board t) (board (steps os t))
unfolding steps
steps-Runs [] t = refl
steps-Runs (o ∷ os) t = (board (step o t), step-Moves o t, steps-Runs os (step o t))
