-- ===== src/Queue/Ended.antt =====
-- About the rows of rann_agent/storage/queue.py whose jobs have ended.
use rann_agent.Prelude.{
  ℕ, String, ◌≡◌, ◌∙◌, ap, Bool, true, false, List, [], ◌∷◌, ◌++◌, str_eq, is_some, In, arith,
  if◌then◌else◌, ◌&&◌, Bool-cases, Option-cases, inl, inr,
}
use rann_agent.Queue.Table.{
  pending, running, status_is, Row, is_held, is_live, update, select_pending, select_job,
}
use rann_agent.Queue.Methods.{
  enqueue, claim, claimed_by, beat, finished, retried, failed_with, cancelled_at, reset, dequeue,
  heartbeat, complete, fail, cancel, cleanup_stale, is_stale,
}
use rann_agent.Queue.Sound.{
  Op, enqueue_op, dequeue_op, heartbeat_op, complete_op, fail_op, cancel_op, cleanup_op, step,
  steps,
}

-- Neither pending nor running.
abbrev pub has_ended : Row → Bool
has_ended r = elim r.status [ pending ↦ false | running ↦ false | _ ↦ true ]

In-update :
    (test : Row → Bool) (change : Row → Row) (r : Row) (t : List Row)
    → test r ≡ false
    → In r t
    → In r (update test change t)
unfolding update
In-update test change r [] e h = h
In-update test change r (x ∷ t) e (inl h) = inl (kept (test x) (ap test h ∙ e))
  where
    kept : (b : Bool) → b ≡ false → (if b then change x else x) ≡ r
    kept b eb = rw eb h
In-update test change r (x ∷ t) e (inr h) = inr (In-update test change r t e h)

In-append : (r : Row) (s t : List Row) → In r s → In r (s ++ t)
In-append r (x ∷ s) t (inl h) = inl h
In-append r (x ∷ s) t (inr h) = inr (In-append r s t h)
In-append r [] t h = absurd h

module _ (r : Row) (ended : has_ended r ≡ true) where
  not_held : (j w : String) → is_held j w r ≡ false
  unfolding is_held status_is
  not_held j w = ground arith

  not_live : is_live r ≡ false
  unfolding is_live status_is
  not_live = ground arith

  not_claimed : (row : Row) → (str_eq r.job_id row.job_id && status_is r.status pending) ≡ false
  unfolding status_is
  not_claimed row = ground arith

  dequeue-In : (w : String) (now : ℕ) (t : List Row) → In r t → In r (dequeue w now t).0
  unfolding dequeue claim
  dequeue-In w now t h = elim (Option-cases (select_pending t)) [
    | inl e ↦ rw e h
    | inr (row, e) ↦ rw e (In-update _ (claimed_by w now) r t (not_claimed row) h)
  ]

  step-In : (o : Op) (t : List Row) → In r t → In r (step o t)
  unfolding step enqueue heartbeat complete fail cancel cleanup_stale is_stale
  step-In (enqueue_op j x now p) t h = elim (Bool-cases (is_some (select_job j t))) [
    | inl e ↦ rw e h
    | inr e ↦ rw e (In-append r t _ h)
  ]
  step-In (dequeue_op w now) t h = dequeue-In w now t h
  step-In (heartbeat_op j w now) t h = In-update (is_held j w) (beat now) r t (not_held j w) h
  step-In (complete_op j w x now) t h =
      In-update (is_held j w) (finished x now) r t (not_held j w) h
  step-In (fail_op j w x true now) t h = In-update (is_held j w) (retried x) r t (not_held j w) h
  step-In (fail_op j w x false now) t h =
      In-update (is_held j w) (failed_with x now) r t (not_held j w) h
  step-In (cancel_op j now) t h = In-update _ (cancelled_at now) r t (ground (arith, not_live)) h
  step-In (cleanup_op now stale) t h = In-update _ reset r t (unfold status_is in ground arith) h

  -- A row that is completed, failed or cancelled stays in the table as it is, whatever is done.
  pub steps-ended : (os : List Op) (t : List Row) → In r t → In r (steps os t)
  unfolding steps
  steps-ended [] t h = h
  steps-ended (o ∷ os) t h = steps-ended os (step o t) (step-In o t h)
