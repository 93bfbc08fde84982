-- ===== src/Bus/Methods.antt =====
-- `MessageBus` of rann_agent/orchestration/message_bus.py without its queue: subscriptions, requests, and
-- the delivery of one message that was taken from the queue. A handler is called with a message and
-- returns or raises; it is taken to leave the bus alone.
use rann_agent.Prelude.{
  ℕ, ◌+◌, ◌-◌, String, Bool, true, false, not, Option, none, some, List, [], ◌∷◌, ◌++◌, length,
  str_eq, filterb, if◌then◌else◌,
}
use rann_agent.Exec.{Result, ok, err}
use rann_agent.Dict.{Dict, lookup, has_key, insert, delete}
use rann_agent.Json.{Fields}
use rann_agent.Bus.Message.{task, high, MessageType, MessagePriority, Message, is_expired}

pub record Subscription : Type 0 where
  pub id : String
  pub topic_pattern : String
  pub handler : String
  pub subscriber_id : String
  pub created_at : ℕ

pub record Delivery : Type 0 where
  pub delivered : ℕ
  pub failed : ℕ
  pub pending : ℕ

-- The future of a request.
pub data Future : Type 0 where
  unanswered : Future
  answered : Message → Future

-- `called` has the handlers that were called, each with its message.
pub record Bus : Type 0 where
  pub subscriptions : Dict (List Subscription)
  pub requests : Dict Future
  pub dead_letter : List Message
  pub delivery_stats : Dict Delivery
  pub called : List (String × Message)

unfoldable pub new_bus : Bus
new_bus = record {
  subscriptions = [];
  requests = [];
  dead_letter = [];
  delivery_stats = [];
  called = [];
}

abbrev none_yet : ℕ → Delivery
none_yet n = record { delivered = 0; failed = 0; pending = n }

abbrev or_empty : Option (List Subscription) → List Subscription
or_empty none = []
or_empty (some subs) = subs

-- `subscribe`, with the id that it draws
unfoldable pub subscribe : String → String → String → String → ℕ → Bus → Bus
unfolding lookup insert has_key
subscribe sub_id topic_pattern handler subscriber_id now b =
    let sub : Subscription = record {
      id = sub_id;
      topic_pattern = topic_pattern;
      handler = handler;
      subscriber_id = subscriber_id;
      created_at = now;
    } in
    record b {
      subscriptions =
          insert topic_pattern (or_empty (lookup topic_pattern b.subscriptions) ++ (sub ∷ []))
            b.subscriptions;
      delivery_stats =
          if has_key topic_pattern b.delivery_stats
          then b.delivery_stats
          else insert topic_pattern (none_yet 0) b.delivery_stats;
    }

-- `subs.pop(i)` at the first subscription of the id; `none` where there is none.
abbrev keep_sub : Subscription → Option (List Subscription) → Option (List Subscription)
keep_sub s none = none
keep_sub s (some rest) = some (s ∷ rest)

unfoldable pub pop_sub : String → List Subscription → Option (List Subscription)
pop_sub sub_id [] = none
pop_sub sub_id (s ∷ ss) =
    let rest = pop_sub sub_id ss in if str_eq s.id sub_id then some ss else keep_sub s rest

-- `if not subs: del`
abbrev pub put_subs :
    String → List Subscription → Dict (List Subscription) → Dict (List Subscription)
put_subs topic [] d = d
put_subs topic (s ∷ ss) d = (topic, s ∷ ss) ∷ d

abbrev pop_found :
    String
    → List Subscription
    → Option (List Subscription)
    → Dict (List Subscription)
    → Bool × Dict (List Subscription)
    → Bool × Dict (List Subscription)
pop_found topic subs none d (found, rest) = (found, (topic, subs) ∷ rest)
pop_found topic subs (some subs') d rest = (true, put_subs topic subs' d)

unfoldable pub pop_topic : String → Dict (List Subscription) → Bool × Dict (List Subscription)
unfolding pop_sub
pop_topic sub_id [] = (false, [])
pop_topic sub_id ((topic, subs) ∷ d) =
    pop_found topic subs (pop_sub sub_id subs) d (pop_topic sub_id d)

-- `unsubscribe`
unfoldable pub unsubscribe : String → Bus → Bool × Bus
unfolding pop_topic
unsubscribe sub_id b =
    let (found, d) = pop_topic sub_id b.subscriptions in (found, record b { subscriptions = d })

-- The loop of `unsubscribe_all`, and how many subscriptions it removed.
abbrev pub others : String → List Subscription → List Subscription
others subscriber_id = filterb (λ s. not (str_eq s.subscriber_id subscriber_id))

unfoldable pub drop_subscriber : String → Dict (List Subscription) → ℕ × Dict (List Subscription)
drop_subscriber subscriber_id [] = (0, [])
drop_subscriber subscriber_id ((topic, subs) ∷ d) =
    let left = others subscriber_id subs in
    let (n, rest) = drop_subscriber subscriber_id d in
    ((length subs - length left) + n, put_subs topic left rest)

unfoldable pub unsubscribe_all : String → Bus → ℕ × Bus
unfolding drop_subscriber
unsubscribe_all subscriber_id b =
    let (n, d) = drop_subscriber subscriber_id b.subscriptions in
    (n, record b { subscriptions = d })

-- A recipient that is not empty is the only subscriber that a message goes to.
abbrev pub is_for : Option String → Subscription → Bool
is_for none s = true
is_for (some r) s = if str_eq r "" then true else str_eq s.subscriber_id r

abbrev pub count : Bool → Delivery → Delivery
count true s = record s { failed = s.failed + 1 }
count false s = record s { delivered = s.delivered + 1 }

-- What is done after a handler: a topic without statistics raises `KeyError`, in the `try` and again
-- in its `except`.
abbrev pub after_handler :
    Bool
    → Option Delivery
    → Message
    → (Bus → Result String (Unit {0}) × Bus)
    → Bus
    → Result String (Unit {0}) × Bus
after_handler failed' none m rest b = (err m.topic, b)
after_handler failed' (some s) m rest b =
    rest (record b { delivery_stats = insert m.topic (count failed' s) b.delivery_stats })

abbrev pub call : Subscription → Message → Bus → Bus
call s m b = record b { called = b.called ++ ((s.handler, m) ∷ []) }

-- The future of the request that the message answers, where one waits for it.
abbrev pub request_of : Option String → Dict Future → Option (String × Future)
request_of none d = none
request_of (some c) d =
    if str_eq c "" then none else elim (lookup c d) [ none ↦ none | some f ↦ some (c, f) ]

abbrev pub answer : Future → Message → Future
answer unanswered m = answered m
answer (answered old) m = answered old

-- What follows `_deliver`: the message gets the time, or goes to the dead letters.
abbrev pub settled : ℕ → Message → (Result String (Unit {0}) × Option Future) × Bus → Message × Bus
settled later m ((ok u, f), b) = (record m { delivered_at = some later }, b)
settled later m ((err e, f), b) = (m, record b { dead_letter = b.dead_letter ++ (m ∷ []) })

-- The message that `publish` makes, with the id that it draws.
unfoldable pub message_of :
    String
    → String
    → String
    → Fields
    → MessageType
    → MessagePriority
    → Option String
    → Option String
    → ℕ
    → ℕ
    → Message
message_of id topic sender_id payload type priority recipient_id correlation_id ttl now = record {
  id = id;
  type = type;
  topic = topic;
  sender_id = sender_id;
  recipient_id = recipient_id;
  correlation_id = correlation_id;
  priority = priority;
  payload = payload;
  created_at = now;
  delivered_at = none;
  ttl = ttl;
}

-- `request` up to its wait: the correlation id that it draws comes to have a future, and its message
-- goes to the queue.
unfoldable pub request : String → String → String → String → Fields → ℕ → Bus → Message × Bus
unfolding insert message_of
request id correlation_id topic sender_id payload now b = (
  message_of id topic sender_id payload task high none (some correlation_id) 300000000 now,
  record b { requests = insert correlation_id unanswered b.requests },
)

-- `fnmatch` of a topic and a pattern
module _ (matches : String → String → Bool) where
  -- `_match_subscriptions`
  unfoldable pub match_subscriptions :
      String → Option String → Dict (List Subscription) → List Subscription
  match_subscriptions topic recipient_id [] = []
  match_subscriptions topic recipient_id ((pattern', subs) ∷ d) =
      let rest = match_subscriptions topic recipient_id d in
      if matches topic pattern' then filterb (is_for recipient_id) subs ++ rest else rest

  -- Whether a handler raises on a message.
  module _ (raises : String → Message → Bool) where
    -- The loop of `_deliver`.
    unfoldable pub deliver_to : List Subscription → Message → Bus → Result String (Unit {0}) × Bus
    unfolding lookup insert
    deliver_to [] m b = (ok tt, b)
    deliver_to (s ∷ ss) m b =
        after_handler (raises s.handler m) (lookup m.topic b.delivery_stats) m (deliver_to ss m)
          (call s m b)

    abbrev pub deliver_matching : List Subscription → Message → Bus → Result String (Unit {0}) × Bus
    deliver_matching [] m b = (
      ok tt,
      record b {
        delivery_stats =
            if has_key m.topic b.delivery_stats
            then b.delivery_stats
            else insert m.topic (none_yet 0) b.delivery_stats;
      },
    )
    deliver_matching (s ∷ ss) m b = deliver_to (s ∷ ss) m b

    abbrev pub deliver_or_answer :
        Option (String × Future) → Message → Bus → (Result String (Unit {0}) × Option Future) × Bus
    deliver_or_answer (some (c, f)) m b =
        ((ok tt, some (answer f m)), record b { requests = delete c b.requests })
    deliver_or_answer none m b =
        let (r, b') =
          deliver_matching (match_subscriptions m.topic m.recipient_id b.subscriptions) m b in
        ((r, none), b')

    -- `_deliver`; beside its result it gives the future that it completed.
    unfoldable pub deliver : Message → Bus → (Result String (Unit {0}) × Option Future) × Bus
    unfolding deliver_to match_subscriptions lookup delete has_key insert
    deliver m b = deliver_or_answer (request_of m.correlation_id b.requests) m b

    -- One round of `_delivery_loop`, with the message that it took, as the round leaves it; `now` is
    -- the time of the test and `later` the time after the delivery.
    unfoldable pub handle_message : (now later : ℕ) → Message → Bus → Message × Bus
    unfolding deliver is_expired
    handle_message now later m b =
        if is_expired now m
        then (m, record b { dead_letter = b.dead_letter ++ (m ∷ []) })
        else settled later m (deliver m b)
