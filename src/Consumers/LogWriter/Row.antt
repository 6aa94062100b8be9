-- ===== src/Consumers/LogWriter/Row.antt =====
-- consumers/log_writer.py: the row that a message becomes.
use log_foundry.Prelude.{
  ℕ, String, Option, none, some, if◌then◌else◌, Outcome, ret, raise, ◌>>=◌, value_error,
}
use log_foundry.Consumers.Kafka.{Message}
use log_foundry.Consumers.Payload.{Json, null, text, Reader, item, get, truthy, load_payload}

-- A timestamp: an instant, or what the payload held if that was no text.
pub data Stamp : Type 0 where
  instant : ℕ → Stamp
  raw : Json → Stamp

pub record Row : Type 0 where
  pub id : String
  pub service : Json
  pub level : Json
  pub message : Json
  pub timestamp : Stamp
  pub trace_id : Json
  pub metadata : Option String

module _ (c : Reader) where
  unfoldable pub uuid_of : Json → Outcome String
  uuid_of j = elim (c.uuid j) [ none ↦ raise value_error | some u ↦ ret u ]

  -- `datetime.fromisoformat(t) if isinstance(t, str) else t`
  unfoldable pub stamp_of : Json → Outcome Stamp
  stamp_of (text t) = elim (c.fromisoformat t) [
    | none ↦ raise value_error
    | some i ↦ ret (instant i)
  ]
  stamp_of j = ret (raw j)

  -- `json.dumps(m) if m else None`
  unfoldable pub metadata_of : Json → Option String
  metadata_of j = if truthy c j then some (c.dumps j) else none

  -- The parsing of the batch loop.
  unfoldable pub parse : Message → Outcome Row
  parse m = do
    payload ← load_payload c m
    t ← item payload "timestamp"
    timestamp ← stamp_of t
    i ← item payload "id"
    id ← uuid_of i
    service ← item payload "service"
    level ← item payload "level"
    message ← item payload "message"
    trace_id ← get payload "trace_id" null
    metadata ← get payload "metadata" null
    ret (record {
      id = id;
      service = service;
      level = level;
      message = message;
      timestamp = timestamp;
      trace_id = trace_id;
      metadata = metadata_of metadata;
    })

  -- The arguments of the single insert, in the order of `_insert_single`.
  unfoldable pub row_of : Json → Outcome Row
  row_of payload = do
    i ← item payload "id"
    id ← uuid_of i
    service ← item payload "service"
    level ← item payload "level"
    message ← item payload "message"
    t ← item payload "timestamp"
    timestamp ← stamp_of t
    trace_id ← get payload "trace_id" null
    metadata ← get payload "metadata" null
    ret (record {
      id = id;
      service = service;
      level = level;
      message = message;
      timestamp = timestamp;
      trace_id = trace_id;
      metadata = metadata_of metadata;
    })
