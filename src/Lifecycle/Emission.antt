-- ===== src/Lifecycle/Emission.antt =====
-- About `self.events.emit(self.events.create_event(...))` of rann_agent/core/lifecycle.py.
use rann_agent.Prelude.{ℕ, ◌+◌, String, ◌≡◌, refl, true, none, [], ◌∷◌, ◌++◌, append_assoc, arith}
use rann_agent.Dict.{lookup}
use rann_agent.Json.{Fields}
use rann_agent.Events.Types.{EventType, type_value, EventStatus}
use rann_agent.Events.Emitter.{or_zero, count_one, emit, create_event, event_of}
use rann_agent.Events.Counts.{count_one_self}
use rann_agent.Lifecycle.Defs.{Lifecycle, emit_created}

-- Each event that a method emits is kept twice and counted twice: `create_event` emits the event
-- that it returns, and the method emits it again. The rest of the object stays as it is.
pub emit_created_twice :
    (event_type : EventType) (status : EventStatus) (metadata : Fields) (now : ℕ) (l : Lifecycle)
    → l.events.store_events ≡ true
    → let event = event_of event_type "agent" none status metadata now l.events in
      let l' = emit_created event_type status metadata now l in
      (l'.events.events ≡ l.events.events ++ event ∷ event ∷ [])
      × (or_zero (lookup (type_value event_type) l'.events.event_counts)
          ≡ or_zero (lookup (type_value event_type) l.events.event_counts) + 2)
      × (l' ≡ record l { events = l'.events })
unfolding emit_created create_event emit event_of
emit_created_twice event_type status metadata now l h =
    (rw h (rw append_assoc), twice (type_value event_type), refl)
  where
    twice :
        (k : String)
        → or_zero (lookup k (count_one k (count_one k l.events.event_counts)))
          ≡ or_zero (lookup k l.events.event_counts) + 2
    twice k = omega (
      arith,
      count_one_self k l.events.event_counts,
      count_one_self k (count_one k l.events.event_counts),
    )
