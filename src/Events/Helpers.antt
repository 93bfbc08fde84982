-- ===== src/Events/Helpers.antt =====
-- The convenience functions at the end of rann_agent/core/events.py. The keyword arguments of a
-- call are put before the caller's own metadata. Each gives the event and the emitter after it.
use rann_agent.Prelude.{ℕ, String, none}
use rann_agent.Json.{str, num, Fields, field}
use rann_agent.Events.Types.{
  run_created, run_started, model_requested, model_responded, tool_started, tool_completed,
  tool_failed, verification_passed, verification_failed, run_completed, error_occurred, started,
  success, failure,
}
use rann_agent.Events.Event.{Event}
use rann_agent.Events.Emitter.{Emitter, create_event}

module _ (now : ℕ) (emitter : Emitter) where
  unfoldable pub emit_run_created : String → Fields → Event × Emitter
  unfolding create_event
  emit_run_created goal metadata =
      create_event run_created "agent" none started (field "goal" (str goal) metadata) now emitter

  unfoldable pub emit_run_started : Fields → Event × Emitter
  unfolding create_event
  emit_run_started metadata = create_event run_started "agent" none success metadata now emitter

  unfoldable pub emit_model_requested : String → Fields → Event × Emitter
  unfolding create_event
  emit_model_requested model metadata =
      create_event model_requested "llm" none started (field "model" (str model) metadata) now
        emitter

  unfoldable pub emit_model_responded : String → ℕ → Fields → Event × Emitter
  unfolding create_event
  emit_model_responded model tokens metadata =
      create_event model_responded "llm" none success
        (field "model" (str model) (field "tokens" (num tokens) metadata)) now emitter

  unfoldable pub emit_tool_started : String → Fields → Event × Emitter
  unfolding create_event
  emit_tool_started tool metadata =
      create_event tool_started "tools" none started (field "tool" (str tool) metadata) now emitter

  -- The duration is in whole milliseconds.
  unfoldable pub emit_tool_completed : String → ℕ → Fields → Event × Emitter
  unfolding create_event
  emit_tool_completed tool duration_ms metadata =
      create_event tool_completed "tools" none success
        (field "tool" (str tool) (field "duration_ms" (num duration_ms) metadata)) now emitter

  unfoldable pub emit_tool_failed : String → String → Fields → Event × Emitter
  unfolding create_event
  emit_tool_failed tool error metadata =
      create_event tool_failed "tools" none failure
        (field "tool" (str tool) (field "error" (str error) metadata)) now emitter

  unfoldable pub emit_verification_passed : Fields → Event × Emitter
  unfolding create_event
  emit_verification_passed metadata =
      create_event verification_passed "agent" none success metadata now emitter

  unfoldable pub emit_verification_failed : String → Fields → Event × Emitter
  unfolding create_event
  emit_verification_failed reason metadata =
      create_event verification_failed "agent" none failure (field "reason" (str reason) metadata)
        now emitter

  -- `output_length` is `len(output)`.
  unfoldable pub emit_run_completed : ℕ → ℕ → Fields → Event × Emitter
  unfolding create_event
  emit_run_completed output_length turns metadata =
      create_event run_completed "agent" none success
        (field "output_length" (num output_length) (field "turns" (num turns) metadata)) now emitter

  unfoldable pub emit_error : String → String → Fields → Event × Emitter
  unfolding create_event
  emit_error error component metadata =
      create_event error_occurred component none failure (field "error" (str error) metadata) now
        emitter
