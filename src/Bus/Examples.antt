-- ===== src/Bus/Examples.antt =====
-- Runs of the message bus, and its theorems at a concrete bus.
use rann_agent.Prelude.{
  String, ◌≡◌, ◌≢◌, eq_iff, arith, ◌⊎◌, refl, Bool, false, ◌||◌, none, some, [], ◌∷◌, ◌++◌, str_eq,
}
use rann_agent.Dict.{lookup, insert, has_key}
use rann_agent.Exec.{ok}
use rann_agent.Json.{end}
use rann_agent.Bus.Message.{Message, status_update, normal, is_expired}
use rann_agent.Bus.Methods.{
  Subscription, Delivery, Bus, new_bus, deliver, request, answered, subscribe, match_subscriptions,
  handle_message,
}
use rann_agent.Bus.Delivery.{calls, counted, deliver-request, handle_message-matching}

-- "agent.*" matches "agent.x", and each topic itself.
abbrev matches : String → String → Bool
matches topic pattern' = str_eq topic pattern' || str_eq pattern' "agent.*"

abbrev raises : String → Message → Bool
raises h m = false

-- Two agents listen by a wildcard.
abbrev bus : Bus
bus = subscribe "s2" "agent.*" "log" "bob" 0 (subscribe "s1" "agent.*" "show" "ann" 0 new_bus)

abbrev message : Message
message = record {
  id = "m";
  type = status_update;
  topic = "agent.x";
  sender_id = "cid";
  recipient_id = none;
  correlation_id = none;
  priority = normal;
  payload = end;
  created_at = 0;
  delivered_at = none;
  ttl = 300;
}

abbrev first_sub : Subscription
first_sub = record {
  id = "s1";
  topic_pattern = "agent.*";
  handler = "show";
  subscriber_id = "ann";
  created_at = 0;
}

abbrev second_sub : Subscription
second_sub = record first_sub { id = "s2"; handler = "log"; subscriber_id = "bob" }

fresh : is_expired 5 message ≡ false
unfolding is_expired
fresh = refl

both_match :
    match_subscriptions matches "agent.x" none bus.subscriptions ≡ first_sub ∷ second_sub ∷ []
unfolding match_subscriptions subscribe new_bus lookup insert has_key
both_match = refl

one_called : (handle_message matches raises 5 6 message bus).1.called ≡ (("show", message) ∷ [])
unfolding handle_message subscribe new_bus insert
one_called = refl

handle_message-matching_example :
    (((s : Delivery) × (lookup "agent.x" bus.delivery_stats ≡ some s)
        × (lookup "agent.x" (handle_message matches raises 5 6 message bus).1.delivery_stats
            ≡ some (counted matches raises (first_sub ∷ second_sub ∷ []) message s)))
      × ((handle_message matches raises 5 6 message bus).1.called
          ≡ bus.called ++ calls (first_sub ∷ second_sub ∷ []) message)
      × ((handle_message matches raises 5 6 message bus).1.dead_letter ≡ bus.dead_letter)
      × ((handle_message matches raises 5 6 message bus).0
          ≡ record message { delivered_at = some 6 }))
    ⊎ ((lookup "agent.x" bus.delivery_stats ≡ none)
        × ((handle_message matches raises 5 6 message bus).1.called
            ≡ bus.called ++ calls (first_sub ∷ []) message)
        × ((handle_message matches raises 5 6 message bus).1.delivery_stats ≡ bus.delivery_stats)
        × ((handle_message matches raises 5 6 message bus).1.dead_letter
            ≡ bus.dead_letter ++ (message ∷ []))
        × ((handle_message matches raises 5 6 message bus).0 ≡ message))
handle_message-matching_example =
    handle_message-matching matches raises 5 6 message bus first_sub (second_sub ∷ []) fresh refl
      both_match

abbrev drawn : String
drawn = "c1"

abbrev no_text : String
no_text = ""

proper : drawn ≢ no_text
proper h = absurd (ground (arith, eq_iff "c1" "", h))

deliver-request_example :
    ((deliver matches raises
        (request "m1" "c1" "agent.x" "ann" end 0 bus).0
        (request "m1" "c1" "agent.x" "ann" end 0 bus).1).0
      ≡ (ok tt, some (answered (request "m1" "c1" "agent.x" "ann" end 0 bus).0)))
    × ((deliver matches raises
          (request "m1" "c1" "agent.x" "ann" end 0 bus).0
          (request "m1" "c1" "agent.x" "ann" end 0 bus).1).1.called
        ≡ bus.called)
    × (lookup "c1"
          (deliver matches raises
            (request "m1" "c1" "agent.x" "ann" end 0 bus).0
            (request "m1" "c1" "agent.x" "ann" end 0 bus).1).1.requests
        ≡ none)
deliver-request_example = deliver-request matches raises "m1" "c1" "agent.x" "ann" end 0 bus proper
