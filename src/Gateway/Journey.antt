-- ===== src/Gateway/Journey.antt =====
-- From a log call to a row: sdk/logger.py, api/models.py and consumers/log_writer.py, one after the
-- other.
use log_foundry.Prelude.{ℕ, ◌≡◌, String, some, Outcome}
use log_foundry.Sdk.Event.{LogRecord, Event, message_of, event_of}
use log_foundry.Sdk.Handler.{Handler}
use log_foundry.Consumers.Kafka.{Bytes}
use log_foundry.Consumers.Payload.{Json, null, text, object, Reader}
use log_foundry.Consumers.LogWriter.Row.{instant, Row, metadata_of}
use log_foundry.Gateway.Models.{Codecs, LogEvent, dump, to_kafka_bytes}
use log_foundry.Gateway.Client.{fields_of}

module _ (c : Codecs Bytes) (rd : Reader) where
  -- What Python's codecs do with the bytes of an event.
  pub record ReadsBack (event : LogEvent) : Type 0 where
    pub content : String
    pub decoded : rd.decode (to_kafka_bytes c event) ≡ some content
    pub loaded : rd.loads content ≡ some (dump c event)
    pub id : rd.uuid (text event.id) ≡ some event.id
    pub time : rd.fromisoformat (c.isoformat event.timestamp) ≡ some event.timestamp

  -- The row of a log record.
  abbrev pub row_of_record : (ℕ → Outcome Json) → String → String → LogRecord → Row
  row_of_record other_json uuid service r = record {
    id = uuid;
    service = text service;
    level = text r.levelname;
    message = text (message_of r);
    timestamp = instant r.created;
    trace_id = null;
    metadata =
        metadata_of rd (object (fields_of c other_json (event_of c.isoformat uuid service r)));
  }
