-- ===== src/Sdk/Event.antt =====
-- sdk/logger.py, the first half of `emit`: the event that a log record becomes.
use log_foundry.Prelude.{
  ℕ, String, ◌≡◌, Option, none, some, List, [], ◌∷◌, arith, str_eq, eq_iff, if◌then◌else◌, Dict,
  member, lookup, insert, lookup-insert,
}

-- A metadata value: a text, a number, or another Python object, by its identity.
pub data Value : Type 0 where
  text : String → Value
  num : ℕ → Value
  object : ℕ → Value

-- `logging.LogRecord`. `formatted` is what `self.format(record)` returns, `none` if it raises;
-- `attributes` is `record.__dict__`.
pub record LogRecord : Type 0 where
  pub name : String
  pub module_name : String
  pub func_name : String
  pub lineno : ℕ
  pub levelname : String
  pub created : ℕ
  pub formatted : Option String
  pub get_message : String
  pub attributes : Dict Value

pub record Event : Type 0 where
  pub id : String
  pub service : String
  pub level : String
  pub message : String
  pub timestamp : String
  pub metadata : Dict Value

abbrev pub standard_attrs : List String
standard_attrs =
    "args" ∷ "asctime" ∷ "created" ∷ "exc_info" ∷ "exc_text" ∷ "filename" ∷ "funcName" ∷ "levelname"
    ∷ "levelno" ∷ "lineno" ∷ "module" ∷ "msecs" ∷ "message" ∷ "msg" ∷ "name" ∷ "pathname"
    ∷ "process" ∷ "processName" ∷ "relativeCreated" ∷ "stack_info" ∷ "thread" ∷ "threadName"
    ∷ "taskName" ∷ []

-- The four entries that every event has.
unfoldable pub base_metadata : LogRecord → Dict Value
base_metadata r =
    ("logger_name", text r.name)
    ∷ ("module", text r.module_name)
    ∷ ("funcName", text r.func_name)
    ∷ ("lineno", num r.lineno)
    ∷ []

-- The loop over `record.__dict__`.
unfoldable pub add_extras : Dict Value → Dict Value → Dict Value
add_extras metadata [] = metadata
add_extras metadata ((key, value) ∷ rest) =
    add_extras (if member key standard_attrs then metadata else insert key value metadata) rest

unfoldable pub metadata_of : LogRecord → Dict Value
unfolding base_metadata add_extras
metadata_of r = add_extras (base_metadata r) r.attributes

unfoldable pub message_of : LogRecord → String
message_of r = elim r.formatted [ none ↦ r.get_message | some m ↦ m ]

-- `uuid` is the fresh identifier; `isoformat` prints a time.
unfoldable pub event_of : (ℕ → String) → String → String → LogRecord → Event
unfolding message_of metadata_of
event_of isoformat uuid service r = record {
  id = uuid;
  service = service;
  level = r.levelname;
  message = message_of r;
  timestamp = isoformat r.created;
  metadata = metadata_of r;
}

-- The last value that a list of writes gives to a key, if it has one.
abbrev pub last_write : String → Dict Value → Option Value
last_write k [] = none
last_write k ((j, v) ∷ writes) =
    let earlier = if str_eq j k then some v else none in
    elim (last_write k writes) [ none ↦ earlier | some w ↦ some w ]

-- What the loop leaves under a key.
add_extras_lem :
    (k : String) (m attributes : Dict Value)
    → lookup k (add_extras m attributes) ≡ (
        if member k standard_attrs
        then lookup k m
        else elim (last_write k attributes) [ none ↦ lookup k m | some v ↦ some v ])
unfolding add_extras
add_extras_lem k m [] = ground arith
add_extras_lem k m ((j, v) ∷ rest) = ground (
  arith,
  add_extras_lem k (if member j standard_attrs then m else insert j v m) rest,
  eq_iff j k,
  lookup-insert j k v m,
)

-- What the metadata of an event holds under a key: of a name in `standard_attrs` only what the four
-- fixed entries give it; of any other name the record's last attribute of that name, if it has one,
-- and what the fixed entries give it if not.
pub lookup-metadata_of :
    (k : String) (r : LogRecord)
    → lookup k (metadata_of r) ≡ (
        if member k standard_attrs
        then lookup k (base_metadata r)
        else elim (last_write k r.attributes) [
          | none ↦ lookup k (base_metadata r)
          | some v ↦ some v
        ])
unfolding metadata_of
lookup-metadata_of k r = add_extras_lem k (base_metadata r) r.attributes
