-- ===== src/Gateway/Models.antt =====
-- api/models.py: `LogEvent`, its validation and its form on Kafka; `BatchIngestRequest`.
use log_foundry.Prelude.{
  ℕ, suc, String, Bool, ◌&&◌, leb, Option, none, some, List, [], ◌∷◌, length, member, if◌then◌else◌,
  Outcome, ◌>>=◌, ret, raise, value_error,
}
use Prim.Native.String
use log_foundry.Consumers.Payload.{
  Json, null, text, object, Fields, field, end, Items, nil, cons, field_of,
}

pub record LogEvent : Type 0 where
  pub id : String
  pub service : String
  pub level : String
  pub message : String
  pub timestamp : ℕ
  pub trace_id : Option String
  pub metadata : Option Fields

-- What pydantic and Python's json do: reading a UUID and a datetime, and their texts; `json.dumps`;
-- `model_dump_json().encode("utf-8")` of an object, and the parsing of bytes, which `B` stands for,
-- `none` where it raises.
pub record Codecs (B : Type 0) : Type 0 where
  pub uuid : Json → Option String
  pub datetime : Json → Option ℕ
  pub isoformat : ℕ → String
  pub dumps : Fields → String
  pub encode_json : Json → B
  pub parse_json : B → Option Json

abbrev pub levels : List String
levels = "DEBUG" ∷ "INFO" ∷ "WARNING" ∷ "ERROR" ∷ "CRITICAL" ∷ []

-- `value_error` stands for pydantic's ValidationError.
abbrev pub ensure : {A : Type 0} → Bool → A → Outcome A
ensure ok a = if ok then ret a else raise value_error

abbrev pub read : {A : Type 0} → Option A → Outcome A
read none = raise value_error
read (some a) = ret a

-- `min_length=1, max_length=256`, in characters.
unfoldable pub is_service : String → Bool
is_service t = leb 1 (String.count t) && leb (String.count t) 256

-- `max_length=8192`, in characters, and `enforce_payload_size`, in bytes of UTF-8.
unfoldable pub is_message : String → Bool
is_message t = leb (String.count t) 8192 && leb (String.len t) 8192

-- The fields of an event, `none` where one is missing.
unfoldable pub read_service : Option Json → Outcome String
unfolding is_service
read_service (some (text t)) = ensure (is_service t) t
read_service _ = raise value_error

unfoldable pub read_level : Option Json → Outcome String
read_level (some (text t)) = ensure (member t levels) t
read_level _ = raise value_error

unfoldable pub read_message : Option Json → Outcome String
unfolding is_message
read_message (some (text t)) = ensure (is_message t) t
read_message _ = raise value_error

unfoldable pub read_trace_id : Option Json → Outcome (Option String)
read_trace_id none = ret none
read_trace_id (some null) = ret none
read_trace_id (some (text t)) = ret (some t)
read_trace_id _ = raise value_error

abbrev pub text_or_null : Option String → Json
text_or_null none = null
text_or_null (some t) = text t

abbrev pub object_or_null : Option Fields → Json
object_or_null none = null
object_or_null (some fs) = object fs

module _ {B : Type 0} (c : Codecs B) where
  -- The default is a new identifier, the default of the time the present one.
  unfoldable pub read_id : String → Option Json → Outcome String
  read_id new_id none = ret new_id
  read_id new_id (some j) = read (c.uuid j)

  unfoldable pub read_timestamp : ℕ → Option Json → Outcome ℕ
  read_timestamp now none = ret now
  read_timestamp now (some j) = read (c.datetime j)

  -- `enforce_metadata_size`
  unfoldable pub is_metadata : Fields → Bool
  is_metadata fs = leb (String.len (c.dumps fs)) 8192

  unfoldable pub read_metadata : Option Json → Outcome (Option Fields)
  unfolding is_metadata
  read_metadata none = ret none
  read_metadata (some null) = ret none
  read_metadata (some (object fs)) = ensure (is_metadata fs) (some fs)
  read_metadata _ = raise value_error

  unfoldable pub read_fields : String → ℕ → Fields → Outcome LogEvent
  unfolding read_id read_service read_level read_message read_timestamp read_trace_id read_metadata
  read_fields new_id now fs = do
    id ← read_id new_id (field_of "id" fs)
    service ← read_service (field_of "service" fs)
    level ← read_level (field_of "level" fs)
    message ← read_message (field_of "message" fs)
    timestamp ← read_timestamp now (field_of "timestamp" fs)
    trace_id ← read_trace_id (field_of "trace_id" fs)
    metadata ← read_metadata (field_of "metadata" fs)
    ret (record {
      id = id;
      service = service;
      level = level;
      message = message;
      timestamp = timestamp;
      trace_id = trace_id;
      metadata = metadata;
    })

  -- `LogEvent.model_validate`
  unfoldable pub validate : String → ℕ → Json → Outcome LogEvent
  unfolding read_fields
  validate new_id now (object fs) = read_fields new_id now fs
  validate new_id now _ = raise value_error

  abbrev pub dump : LogEvent → Json
  dump event = object (
      field "id" (text event.id) (
        field "service" (text event.service) (
          field "level" (text event.level) (
            field "message" (text event.message) (
              field "timestamp" (text (c.isoformat event.timestamp)) (
                field "trace_id" (text_or_null event.trace_id)
                  (field "metadata" (object_or_null event.metadata) end)))))))

  unfoldable pub to_kafka_bytes : LogEvent → B
  to_kafka_bytes event = c.encode_json (dump event)

  unfoldable pub from_kafka_bytes : String → ℕ → B → Outcome LogEvent
  unfolding validate
  from_kafka_bytes new_id now bytes = elim (c.parse_json bytes) [
    | none ↦ raise value_error
    | some j ↦ validate new_id now j
  ]

  -- The events of a batch; `new_id n` is the identifier that the event at place `n` is given.
  unfoldable pub validate_all : (ℕ → String) → ℕ → ℕ → Items → Outcome (List LogEvent)
  unfolding validate
  validate_all new_id n now nil = ret []
  validate_all new_id n now (cons j items) = do
    event ← validate (new_id n) now j
    events ← validate_all new_id (suc n) now items
    ret (event ∷ events)

  -- `BatchIngestRequest`: `min_length=1, max_length=1000`.
  unfoldable pub validate_batch : (ℕ → String) → ℕ → Items → Outcome (List LogEvent)
  unfolding validate_all
  validate_batch new_id now items = do
    events ← validate_all new_id 0 now items
    ensure (leb 1 (length events) && leb (length events) 1000) events
