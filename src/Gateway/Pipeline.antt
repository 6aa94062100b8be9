-- ===== src/Gateway/Pipeline.antt =====
-- api/models.py and consumers/*.py: what the three consumers read of an event that the API sent.
use log_foundry.Prelude.{◌≡◌, refl, String, some, ret}
use log_foundry.Consumers.Kafka.{Bytes, Message}
use log_foundry.Consumers.Payload.{text, field_of, Reader, item, get, load_payload}
use log_foundry.Consumers.LogWriter.Row.{instant, Row, uuid_of, stamp_of, metadata_of, parse}
use log_foundry.Gateway.Models.{
  LogEvent, Codecs, text_or_null, object_or_null, dump, to_kafka_bytes,
}

module _ (c : Codecs Bytes) (rd : Reader) where
  -- The row of an event.
  abbrev pub row_of_event : LogEvent → Row
  row_of_event event = record {
    id = event.id;
    service = text event.service;
    level = text event.level;
    message = text event.message;
    timestamp = instant event.timestamp;
    trace_id = text_or_null event.trace_id;
    metadata = metadata_of rd (object_or_null event.metadata);
  }

  load_payload-dump :
      (event : LogEvent) (t : String) (m : Message)
      → m.value ≡ some (to_kafka_bytes c event)
      → rd.decode (to_kafka_bytes c event) ≡ some t
      → rd.loads t ≡ some (dump c event)
      → load_payload rd m ≡ ret (dump c event)
  unfolding load_payload
  load_payload-dump event t m sent decoded loaded = rw (sent, decoded, loaded, load_payload) refl

  pub parse-to_kafka_bytes :
      (event : LogEvent) (t : String) (m : Message)
      → m.value ≡ some (to_kafka_bytes c event)
      → rd.decode (to_kafka_bytes c event) ≡ some t
      → rd.loads t ≡ some (dump c event)
      → rd.uuid (text event.id) ≡ some event.id
      → rd.fromisoformat (c.isoformat event.timestamp) ≡ some event.timestamp
      → parse rd m ≡ ret (row_of_event event)
  unfolding parse item get field_of uuid_of stamp_of
  parse-to_kafka_bytes event t m sent decoded loaded id time =
      rw (load_payload-dump event t m sent decoded loaded, time, id, stamp_of, uuid_of) refl
