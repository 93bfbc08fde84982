-- ===== src/Bus/Message.antt =====
-- `Message` of rann_agent/orchestration/message_bus.py, its enumerations and its dictionary. Times are
-- microseconds.
use rann_agent.Prelude.{
  ℕ, ◌+◌, String, ◌≡◌, refl, Bool, Option, none, some, ltb, str_eq, if◌then◌else◌, ◌==◌, arith,
}
use rann_agent.Json.{
  Json, null, num, str, obj, Fields, end, field, get_field, as_str, as_obj, opt_str, opt_str_of,
  fields_of,
}
use rann_agent.State.Record.{◌>>=◌}

pub data MessagePriority : Type 0 where
  low normal high critical : MessagePriority

unfoldable pub priority_value : MessagePriority → ℕ
priority_value low = 0
priority_value normal = 1
priority_value high = 2
priority_value critical = 3

unfoldable pub priority_from_value : ℕ → Option MessagePriority
priority_from_value n =
    if n == 0
    then some low
    else if n == 1
    then some normal
    else if n == 2
    then some high
    else if n == 3
    then some critical
    else none

pub data MessageType : Type 0 where
  task result error heartbeat approval_request approval_response status_update cancel discovery :
      MessageType

unfoldable pub type_value : MessageType → String
type_value task = "task"
type_value result = "result"
type_value error = "error"
type_value heartbeat = "heartbeat"
type_value approval_request = "approval_request"
type_value approval_response = "approval_response"
type_value status_update = "status_update"
type_value cancel = "cancel"
type_value discovery = "discovery"

unfoldable pub type_from_value : String → Option MessageType
type_from_value s =
    if str_eq s "task"
    then some task
    else if str_eq s "result"
    then some result
    else if str_eq s "error"
    then some error
    else if str_eq s "heartbeat"
    then some heartbeat
    else if str_eq s "approval_request"
    then some approval_request
    else if str_eq s "approval_response"
    then some approval_response
    else if str_eq s "status_update"
    then some status_update
    else if str_eq s "cancel"
    then some cancel
    else if str_eq s "discovery"
    then some discovery
    else none

-- A recipient of `None` is every subscriber.
pub record Message : Type 0 where
  pub id : String
  pub type : MessageType
  pub topic : String
  pub sender_id : String
  pub recipient_id : Option String
  pub correlation_id : Option String
  pub priority : MessagePriority
  pub payload : Fields
  pub created_at : ℕ
  pub delivered_at : Option ℕ
  pub ttl : ℕ

-- `is_expired`, at the time `now`
unfoldable pub is_expired : ℕ → Message → Bool
is_expired now m = ltb (m.created_at + m.ttl) now

abbrev opt_num : Option ℕ → Json
opt_num none = null
opt_num (some n) = num n

-- `to_dict`
unfoldable pub to_dict : Message → Json
unfolding type_value priority_value opt_str
to_dict m = obj (
    field "id" (str m.id) (
      field "type" (str (type_value m.type)) (
        field "topic" (str m.topic) (
          field "sender_id" (str m.sender_id) (
            field "recipient_id" (opt_str m.recipient_id) (
              field "correlation_id" (opt_str m.correlation_id) (
                field "priority" (num (priority_value m.priority)) (
                  field "payload" (obj m.payload) (
                    field "created_at" (num m.created_at) (
                      field "delivered_at" (opt_num m.delivered_at)
                        (field "ttl" (num m.ttl) end)))))))))))

-- `d.get(k, default)` of a number
abbrev num_or : ℕ → Option Json → Option ℕ
num_or default none = some default
num_or default (some (num n)) = some n
num_or default (some _) = none

abbrev opt_num_of : Option Json → Option (Option ℕ)
opt_num_of none = some none
opt_num_of (some null) = some none
opt_num_of (some (num n)) = some (some n)
opt_num_of (some _) = none

-- `from_dict`, at the time `now`; `none` is the exception that it raises.
unfoldable pub from_dict : ℕ → Json → Option Message
unfolding get_field as_str as_obj type_from_value priority_from_value
from_dict now j = do
  fs ← as_obj j
  id_json ← get_field "id" fs
  id ← as_str id_json
  type_json ← get_field "type" fs
  type_text ← as_str type_json
  type ← type_from_value type_text
  topic_json ← get_field "topic" fs
  topic ← as_str topic_json
  sender_json ← get_field "sender_id" fs
  sender_id ← as_str sender_json
  recipient_id ← opt_str_of (get_field "recipient_id" fs)
  correlation_id ← opt_str_of (get_field "correlation_id" fs)
  priority_number ← num_or 1 (get_field "priority" fs)
  priority ← priority_from_value priority_number
  payload ← fields_of (get_field "payload" fs)
  created_at ← num_or now (get_field "created_at" fs)
  delivered_at ← opt_num_of (get_field "delivered_at" fs)
  ttl ← num_or 300000000 (get_field "ttl" fs)
  some (record {
    id = id;
    type = type;
    topic = topic;
    sender_id = sender_id;
    recipient_id = recipient_id;
    correlation_id = correlation_id;
    priority = priority;
    payload = payload;
    created_at = created_at;
    delivered_at = delivered_at;
    ttl = ttl;
  })

priority_from-value : (p : MessagePriority) → priority_from_value (priority_value p) ≡ some p
unfolding priority_from_value priority_value
priority_from-value low = refl
priority_from-value normal = refl
priority_from-value high = refl
priority_from-value critical = refl

type_from-value : (t : MessageType) → type_from_value (type_value t) ≡ some t
unfolding type_from_value type_value
type_from-value task = refl
type_from-value result = refl
type_from-value error = refl
type_from-value heartbeat = refl
type_from-value approval_request = refl
type_from-value approval_response = refl
type_from-value status_update = refl
type_from-value cancel = refl
type_from-value discovery = refl

-- Every message is read back from its dictionary as it was.
pub from_dict-to_dict : (now : ℕ) (m : Message) → from_dict now (to_dict m) ≡ some m
unfolding from_dict to_dict get_field as_str as_obj opt_str
from_dict-to_dict now m =
    rw (type_from-value m.type, priority_from-value m.priority)
      (ground (arith, m.recipient_id, m.correlation_id, m.delivered_at))
