-- ===== src/Queue/Examples.antt =====
-- Runs of the queue, and its theorems at concrete tables.
use rann_agent.Prelude.{
  eq_iff, String, ◌≡◌, ◌≢◌, refl, false, none, some, List, [], ◌∷◌, All, In, inl, arith,
}
use rann_agent.Queue.Table.{
  pending, completed, status_is, Row, is_held, worker_is, select_pending, precedes,
}
use rann_agent.Queue.Methods.{claim, claimed_job, dequeue, list_pending}
use rann_agent.Queue.Sound.{
  Op, enqueue_op, dequeue_op, cleanup_op, complete_op, steps, IsSound, steps-IsSound,
}
use rann_agent.Queue.Board.{Runs, board, steps-Runs}
use rann_agent.Queue.Ended.{steps-ended}
use rann_agent.Queue.Claim.{Answer, Holds, IsUnique, dequeue-Answer, claim_race}

abbrev script : List Op
script =
    enqueue_op "a" "{}" 1 0
    ∷ enqueue_op "b" "{}" 2 5
    ∷ dequeue_op "w1" 3
    ∷ complete_op "b" "w1" none 4
    ∷ cleanup_op 9 2
    ∷ []

steps-IsSound_example : All IsSound (steps script [])
steps-IsSound_example = steps-IsSound script [] tt

abbrev waiting : Row
waiting = record {
  job_id = "a";
  task_id = "a";
  task_json = "{}";
  worker_id = none;
  status = pending;
  created_at = 1;
  started_at = none;
  completed_at = none;
  heartbeat_at = none;
  error = none;
  retry_count = 0;
  priority = 0;
  result_json = none;
}

abbrev done : Row
done = record waiting { job_id = "z"; status = completed; completed_at = some 1 }

steps-ended_example : In done (steps script (done ∷ []))
steps-ended_example = steps-ended done refl script (done ∷ []) (inl refl)

abbrev urgent : Row
urgent = record waiting { job_id = "b"; created_at = 2; priority = 5 }

abbrev table : List Row
table = waiting ∷ urgent ∷ []

first_urgent : select_pending table ≡ some urgent
unfolding select_pending precedes status_is
first_urgent = refl

in_order : list_pending 50 table ≡ urgent ∷ waiting ∷ []
unfolding list_pending
in_order = refl

dequeue-Answer_example : Answer "w1" 3 table (dequeue "w1" 3 table)
dequeue-Answer_example = dequeue-Answer "w1" 3 table

two_workers : ◌≢◌ {A = String} "w1" "w2"
two_workers h = absurd (ground (arith, eq_iff "w1" "w2", h))

table-IsUnique : IsUnique table
table-IsUnique = ((refl, tt), (tt, tt))

claim_race_example :
    ((claimed_job "w1" 3 urgent).job_id ≡ (claimed_job "w2" 4 urgent).job_id)
    × ((claimed_job "w2" 4 urgent).worker_id ≡ some "w2")
    × (claim "w2" 4 urgent (claim "w1" 3 urgent table) ≡ claim "w1" 3 urgent table)
    × Holds "b" "w1" (claim "w2" 4 urgent (claim "w1" 3 urgent table))
    × (¬ Holds "b" "w2" (claim "w2" 4 urgent (claim "w1" 3 urgent table)))
claim_race_example = claim_race "w1" "w2" 3 4 table urgent two_workers table-IsUnique first_urgent

unheld : All (λ r. is_held "a" "w9" r ≡ false) table
unfolding is_held worker_is
unheld = (refl, (refl, tt))

steps-Runs_example : Runs script (board table) (board (steps script table))
steps-Runs_example = steps-Runs script table
