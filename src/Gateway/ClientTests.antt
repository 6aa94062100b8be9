-- ===== src/Gateway/ClientTests.antt =====
-- Batches of the SDK at the API, on concrete input.
use log_foundry.Prelude.{
  ℕ, ◌≤◌, ◌≡◌, ◌↔◌, ◌⊎◌, refl, String, true, false, Option, none, some, [], ◌∷◌, ◌++◌, map, member,
  All, Outcome, ret, raise, value_error, type_error,
}
use log_foundry.Sdk.Event.{Event, LogRecord, event_of}
use log_foundry.Sdk.Handler.{Handler, flush}
use log_foundry.Sdk.Calls.{requested}
use log_foundry.Consumers.Kafka.{Bytes, Message}
use log_foundry.Consumers.Payload.{Json, text, object, array, nil, cons, field, end, Reader}
use log_foundry.Consumers.Alerts.{Services}
use log_foundry.Gateway.Models.{Codecs, dump, to_kafka_bytes}
use log_foundry.Gateway.Body.{
  body_json, events_json, event_json, event_fields, metadata_json, dumps_by, validate_body,
}
use log_foundry.Gateway.Client.{fields_of, log_event_of, IsPrinted, Fits, validate_body-posted}
use log_foundry.Gateway.Loss.{flush-Loses}

-- One time, one byte.
abbrev pub read_uuid : Json → Option String
read_uuid (text t) = some t
read_uuid _ = none

abbrev pub codecs : Codecs Bytes
codecs = record {
  uuid = read_uuid;
  datetime = λ j. some 7;
  isoformat = λ n. "7";
  dumps = λ fs. "{}";
  encode_json = λ j. 1 ∷ [];
  parse_json = λ b. none;
}

abbrev no_json : ℕ → Outcome Json
no_json o = raise type_error

abbrev printer : Json → String
printer j = "{…}"

abbrev event : String → Event
event level = record {
  id = "e1";
  service = "pay";
  level = level;
  message = "hi";
  timestamp = "7";
  metadata = [];
}

abbrev body : String → Json
body level =
    object (field "events" (array (cons (object (event_fields (event level) end)) nil)) end)

held : (level : String) → body_json no_json (event level ∷ []) ≡ ret (body level)
unfolding body_json events_json event_json metadata_json
held level = refl

printed : (level : String) → All (IsPrinted codecs no_json) (event level ∷ [])
printed level = (record { id = refl; time = refl }, tt)

validate_body-posted_example :
    ((validate_body codecs (λ n. "new") 9 (body "INFO")
        ≡ ret (map (log_event_of codecs no_json) (event "INFO" ∷ [])))
      ↔ ((1 ≤ 1) × (1 ≤ 1000) × All (Fits codecs no_json) (event "INFO" ∷ [])))
    × ((validate_body codecs (λ n. "new") 9 (body "INFO")
          ≡ ret (map (log_event_of codecs no_json) (event "INFO" ∷ [])))
        ⊎ (validate_body codecs (λ n. "new") 9 (body "INFO") ≡ raise value_error))
validate_body-posted_example =
    validate_body-posted codecs no_json (λ n. "new") 9 (event "INFO" ∷ []) (body "INFO")
      (printed "INFO") (held "INFO")

-- A level that logging knows and the API does not.
abbrev traced : Handler
traced = record {
  service = "pay";
  endpoint = "http://localhost:8000";
  async_mode = true;
  batch_size = 50;
  max_buffer_size = 10000;
  verbose = false;
  buffer = event "TRACE" ∷ [];
  closed = false;
  last_warning_time = 0;
  flush_event = false;
  requests = [];
  stderr = [];
}

no_room : ¬ ((1 ≤ 1000) × All (Fits codecs no_json) (event "TRACE" ∷ []))
unfolding member
no_room h = let e = Fits.level h.1.0 in cc

flush-Loses_example :
    ((flush (dumps_by no_json printer) none traced).1.buffer ≡ [])
    × (requested (flush (dumps_by no_json printer) none traced).1.requests
        ≡ requested traced.requests ++ (event "TRACE" ∷ []) ∷ [])
    × (validate_body codecs (λ n. "new") 9 (body "TRACE") ≡ raise value_error)
flush-Loses_example =
    flush-Loses codecs no_json printer none (λ n. "new") 9 traced (body "TRACE") (printed "TRACE")
      (λ e. cc) (held "TRACE") no_room

abbrev log_record : LogRecord
log_record = record {
  name = "app";
  module_name = "app";
  func_name = "pay";
  lineno = 3;
  levelname = "INFO";
  created = 7;
  formatted = some "paid";
  get_message = "paid";
  attributes = [];
}

abbrev synchronous : Handler
synchronous = record traced { async_mode = false; buffer = [] }

abbrev logged : Event
logged = event_of codecs.isoformat "e2" "pay" log_record

abbrev logged_body : Json
logged_body = object (
    field "events"
      (array (cons (object (event_fields logged (fields_of codecs no_json logged))) nil)) end)

abbrev stored : Bytes
stored = to_kafka_bytes codecs (log_event_of codecs no_json logged)

abbrev message : Message
message = record {
  topic = "logs.ingest";
  partition = 0;
  offset = 0;
  key = none;
  value = some stored;
}

abbrev reader : Reader
reader = record {
  decode = λ b. some "{…}";
  loads = λ t. some (dump codecs (log_event_of codecs no_json logged));
  dumps = λ j. "{}";
  show = λ j. "";
  nonzero = λ t. true;
  uuid = read_uuid;
  fromisoformat = λ t. some 7;
}

abbrev no_services : Services (Unit {0})
no_services = record {
  compile = λ p. ret tt;
  search = λ p t. true;
  encode = λ t. ret [];
  send = λ key alert s. (ret tt, s);
  hincrby = λ key name n s. (ret tt, s);
}
