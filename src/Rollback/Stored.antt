-- ===== src/Rollback/Stored.antt =====
-- About the dictionaries of rann_agent/core/rollback_engine.py.
use rann_agent.Prelude.{ℕ, ◌≡◌, refl, Option, none, some, List, [], ◌∷◌, arith}
use rann_agent.Json.{get_field, opt_str, as_str, as_obj, IsoFormat}
use rann_agent.Rollback.Types.{
  FileSnapshot, RollbackStep, RollbackProcedure, type_from-value, status_from-value,
  snapshot_to_dict, snapshot_from_dict, opt_time, time_of, snapshot_json, snapshot_of, step_to_dict,
  step_from_dict, steps_to_items, steps_from_items, procedure_to_dict, procedure_from_dict,
}

module _ (iso : IsoFormat) where
  open iso use {isoformat, fromisoformat, fromisoformat-isoformat, isoformat_nonempty}

  time_of-opt_time : (t : Option ℕ) → time_of iso (some (opt_time iso t)) ≡ some t
  time_of-opt_time none = refl
  time_of-opt_time (some t) = rw (isoformat_nonempty t, fromisoformat-isoformat t) refl

  snapshot_of-snapshot_json :
      (s : Option FileSnapshot) → snapshot_of iso (some (snapshot_json iso s)) ≡ some s
  unfolding snapshot_to_dict snapshot_from_dict get_field as_str opt_str
  snapshot_of-snapshot_json none = refl
  snapshot_of-snapshot_json (some s) = ground (arith, fromisoformat-isoformat s.created_at)

  step_from_dict-step_to_dict :
      (s : RollbackStep) → step_from_dict iso (step_to_dict iso s) ≡ some s
  unfolding step_to_dict step_from_dict get_field as_str as_obj opt_str
  step_from_dict-step_to_dict s = ground (
    arith,
    type_from-value s.rollback_type,
    status_from-value s.status,
    snapshot_of-snapshot_json s.snapshot,
    time_of-opt_time s.executed_at,
  )

  steps_from_items-steps_to_items :
      (ss : List RollbackStep) → steps_from_items iso (steps_to_items iso ss) ≡ some ss
  unfolding steps_to_items steps_from_items
  steps_from_items-steps_to_items [] = refl
  steps_from_items-steps_to_items (s ∷ ss) =
      rw (step_from_dict-step_to_dict s, steps_from_items-steps_to_items ss) refl

  -- Every procedure, its steps and their snapshots included, is read back from its dictionary as it was.
  pub procedure_from_dict-procedure_to_dict :
      (p : RollbackProcedure) → procedure_from_dict iso (procedure_to_dict iso p) ≡ some p
  unfolding procedure_to_dict procedure_from_dict get_field as_str as_obj opt_str
  procedure_from_dict-procedure_to_dict p = ground (
    arith,
    status_from-value p.status,
    fromisoformat-isoformat p.created_at,
    time_of-opt_time p.completed_at,
    steps_from_items-steps_to_items p.steps,
  )
