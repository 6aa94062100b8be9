-- ===== src/Gateway/StoredTests.antt =====
-- An event from the API to the table, on concrete input.
use log_foundry.Prelude.{true, none, some, [], ◌∷◌}
use log_foundry.Consumers.Payload.{Reader}
use log_foundry.Consumers.Base.{Run}
use log_foundry.Consumers.Base
use log_foundry.Consumers.LogWriter.Insert
use log_foundry.Consumers.LogWriter.Insert.{consume_loop}
use log_foundry.Consumers.Sample.{World, broker, server, codec, settings, line, fresh}
use log_foundry.Gateway.Models.{LogEvent, dump}
use log_foundry.Gateway.ClientTests.{codecs, read_uuid}

abbrev event : LogEvent
event = record {
  id = "e1";
  service = "pay";
  level = "INFO";
  message = "hi";
  timestamp = 7;
  trace_id = none;
  metadata = none;
}

abbrev reader : Reader
reader = record {
  decode = λ b. some "{…}";
  loads = λ t. some (dump codecs event);
  dumps = λ j. "{}";
  show = λ j. "";
  nonzero = λ t. true;
  uuid = read_uuid;
  fromisoformat = λ t. some 7;
}

-- Message 1 holds the bytes of the event.
abbrev one : Run World
one = record { world = fresh (((0, line 1 ∷ []) ∷ []) ∷ []); journal = [] }

abbrev after : Run World
after = consume_loop broker (server true) reader codec settings 1 one
