-- ===== src/State/Restore.antt =====
-- About `_persist` and `load` of rann_agent/core/state.py.
use rann_agent.Prelude.{ℕ, String, ◌≡◌, refl, true, false, Option, none, some, List, [], ◌∷◌, arith}
use rann_agent.Json.{Fields, end, opt_str, get_field, as_str, as_obj, IsoFormat}
use rann_agent.State.Values.{AgentState, from_value-value}
use rann_agent.State.Record.{
  StateTransitionRecord, PersistedState, record_to_dict, record_from_dict, persisted_to_dict,
  persisted_from_dict, history_to_items, history_from_items,
}
use rann_agent.State.Machine.{
  Machine, Moment, init, can_transition_to, persist, transition, load, load_file, load_document,
  load_history,
}

module _ (iso : IsoFormat) where
  open iso use {isoformat, fromisoformat, fromisoformat-isoformat}

  from-to-record :
      (r : StateTransitionRecord) → record_from_dict iso (record_to_dict iso r) ≡ some r
  unfolding record_to_dict record_from_dict get_field as_str as_obj opt_str
  from-to-record r = ground (
    arith,
    from_value-value r.from_state,
    from_value-value r.to_state,
    fromisoformat-isoformat r.timestamp,
  )

  from-to-history :
      (rs : List StateTransitionRecord) → history_from_items iso (history_to_items iso rs) ≡ some rs
  unfolding history_to_items history_from_items
  from-to-history [] = refl
  from-to-history (r ∷ rs) = rw (from-to-record r, from-to-history rs)

  from-to-persisted :
      (p : PersistedState) → persisted_from_dict iso (persisted_to_dict iso p) ≡ some p
  unfolding persisted_to_dict persisted_from_dict get_field as_str as_obj
  from-to-persisted p =
      ground (arith, from_value-value p.state, fromisoformat-isoformat p.state_since)

  -- The document that `persist` writes for a machine.
  abbrev document_of : Machine → PersistedState
  document_of m = record {
    run_id = m.run_id;
    state = m.state;
    state_since = m.state_since;
    history = history_to_items iso m.history;
    metadata = end;
  }

  load_document-of :
      (m m' : Machine)
      → load_document iso (some (document_of m)) m'
        ≡ (record m' { state = m.state; state_since = m.state_since; history = m.history }, true)
  unfolding load_document load_history
  load_document-of m m' = rw (from-to-history m.history, load_history)

  -- A process that starts again finds the state file of the run.
  abbrev pub restart : AgentState → ℕ → Machine → Machine
  restart s now m = init m.run_id s now m.file

  load-persist :
      (s : AgentState) (now : ℕ) (m : Machine)
      → load iso (restart s now (persist iso true m)) ≡ (persist iso true m, true)
  unfolding load load_file persist init
  load-persist s now m = rw (from-to-persisted (document_of m)) (load_document-of m _)

  -- After a transition that is in the table, and whose file was written, a machine that starts again
  -- loads the very state, time and history that the first one has.
  pub load-transition :
      (w : Moment) (target : AgentState) (reason : Option String) (metadata : Fields) (m : Machine)
      (s : AgentState) (now : ℕ)
      → can_transition_to m target ≡ true
      → w.written ≡ true
      → let after = (transition iso w target reason metadata m).1 in
        load iso (restart s now after) ≡ (after, true)
  unfolding transition
  load-transition w target reason metadata m s now v h =
      rw (v, transition, h) (load-persist s now _)

  -- Where a record of the stored history cannot be converted, `load` reports failure and yet has put
  -- the stored state and its time in place; the history stays the old one.
  pub load_partial :
      (m : Machine) (p : PersistedState)
      → history_from_items iso p.history ≡ none
      → let stored = record m { file = some (persisted_to_dict iso p) } in
        load iso stored ≡ (record stored { state = p.state; state_since = p.state_since }, false)
  unfolding load load_file load_document load_history
  load_partial m p h = rw (from-to-persisted p, load_document, h, load_history)
