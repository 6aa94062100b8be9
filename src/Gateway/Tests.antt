-- ===== src/Gateway/Tests.antt =====
-- The application and its models on concrete input.
use log_foundry.Prelude.{
  ℕ, suc, ◌+◌, ◌≤◌, ◌≡◌, ◌↔◌, refl, ap, String, decimal, true, false, Option, none, some, [], ◌∷◌,
  length, All, Outcome, ret, raise, other, member,
}
use log_foundry.Prelude.Int.{pos}
use log_foundry.Consumers.Payload.{Reader, Json, text, object, field, end, nil, cons, field_of}
use log_foundry.Consumers.Lifecycle.{producer, pool, redis, Life, Clients}
use log_foundry.Metrics.Sample.{int, int-Reads}
use log_foundry.Metrics.Worth.{Reads}
use log_foundry.Consumers.Kafka.{Bytes, Message}
use log_foundry.Consumers.Alerts.{Services}
use log_foundry.Gateway.Health.{
  Backends, State, health_check, check_postgres, readiness_check, after_kafka, after_postgres,
  readiness_check_iff,
}
use log_foundry.Gateway.Lifespan.{starts, stops, Follows, lifespan, lifespan-Follows}
use log_foundry.Gateway.Models.{
  dump, LogEvent, Codecs, is_service, is_message, read_service, read_level, read_message,
  read_trace_id, read_id, read_timestamp, read_metadata, read_fields, validate, to_kafka_bytes,
  validate_all, validate_batch,
}
use log_foundry.Gateway.Valid.{Laws, IsValid, validate_batch-IsValid}

-- Backends that answer, a world that counts the calls.
abbrev backends : Backends ℕ
backends = record {
  partitions_for = λ topic n. (ret true, suc n);
  acquire = λ n. (ret tt, suc n);
  select_one = λ n. (ret tt, suc n);
  release = λ n. (ret tt, suc n);
  ping = λ n. (ret tt, suc n);
}

abbrev app : State ℕ
app = record { started = true; topic = "logs.ingest"; world = 0 }

readiness_check_iff_example : ((readiness_check backends app).0.status_code ≡ 200) ↔ (
    (app.started ≡ true)
    × ((backends.partitions_for app.topic app.world).0 ≡ ret true)
    × ((backends.acquire (after_kafka backends app)).0 ≡ ret tt)
    × ((backends.select_one (backends.acquire (after_kafka backends app)).1).0 ≡ ret tt)
    × ((backends.release (backends.select_one (backends.acquire (after_kafka backends app)).1).1).0
        ≡ ret tt)
    × ((backends.ping (after_postgres backends app)).0 ≡ ret tt))
readiness_check_iff_example = readiness_check_iff backends app

ready : (readiness_check backends app).0.status ≡ "healthy"
unfolding readiness_check health_check check_postgres
ready = refl

-- A pool that cannot be opened.
abbrev clients : Clients ℕ
clients = record {
  start_client = λ p n. elim p [ pool ↦ (raise other, n) | _ ↦ (ret tt, suc n) ];
  stop_client = λ p n. (ret tt, suc n);
}

abbrev idle : Life ℕ
idle = record { run = 0; running = false; acts = [] }

lifespan-Follows_example :
    Follows
      (starts redis
        ∷ starts pool
        ∷ starts producer
        ∷ stops producer
        ∷ stops pool
        ∷ stops redis
        ∷ [])
      []
      (lifespan clients (ret (pos 100, pos 60)) (λ n. n + 1) idle)
lifespan-Follows_example = lifespan-Follows clients (ret (pos 100, pos 60)) (λ n. n + 1) idle

-- A JSON value stands for its bytes.
abbrev to_option : {A : Type 0} → Outcome A → Option A
to_option (ret a) = some a
to_option (raise e) = none

abbrev read_uuid : Json → Option String
read_uuid (text t) = some t
read_uuid _ = none

abbrev datetime_of : Json → Option ℕ
datetime_of (text t) = to_option (int t)
datetime_of _ = none

abbrev codecs : Codecs Json
codecs = record {
  uuid = read_uuid;
  datetime = datetime_of;
  isoformat = λ n. decimal n;
  dumps = λ fs. "{}";
  encode_json = λ j. j;
  parse_json = λ j. some j;
}

uuid_again : (j : Json) (t : String) → read_uuid j ≡ some t → read_uuid (text t) ≡ some t
uuid_again j t h = refl

laws : Laws codecs
laws = record {
  uuid-text = uuid_again;
  datetime-isoformat = λ n. ap to_option (Reads.int-decimal int-Reads n);
  parse-encode = λ j. refl;
}

abbrev posted : Json
posted =
    object
      (field "service" (text "pay") (field "level" (text "INFO") (field "message" (text "hi") end)))

abbrev event : LogEvent
event = record {
  id = "new";
  service = "pay";
  level = "INFO";
  message = "hi";
  timestamp = 7;
  trace_id = none;
  metadata = none;
}

batch_let_in : validate_batch codecs (λ n. "new") 7 (cons posted nil) ≡ ret (event ∷ [])
unfolding validate_batch validate_all validate read_fields read_id read_service is_service
    read_level member read_message is_message read_timestamp read_trace_id read_metadata field_of
batch_let_in = refl

validate_batch-IsValid_example :
    (1 ≤ length (event ∷ [])) × (length (event ∷ []) ≤ 1000) × All (IsValid codecs) (event ∷ [])
validate_batch-IsValid_example =
    validate_batch-IsValid codecs laws (λ n. "new") 7 (cons posted nil) (event ∷ []) (λ n. refl)
      batch_let_in

-- One event, whose bytes are a single one.
abbrev byte_codecs : Codecs Bytes
byte_codecs = record {
  uuid = read_uuid;
  datetime = datetime_of;
  isoformat = λ n. decimal n;
  dumps = λ fs. "{}";
  encode_json = λ j. 1 ∷ [];
  parse_json = λ b. none;
}

abbrev reader : Reader
reader = record {
  decode = λ b. some "{…}";
  loads = λ t. some (dump byte_codecs event);
  dumps = λ j. "{}";
  show = λ j. "";
  nonzero = λ t. true;
  uuid = read_uuid;
  fromisoformat = λ t. some 7;
}

abbrev message : Message
message = record {
  topic = "logs.ingest";
  partition = 0;
  offset = 0;
  key = none;
  value = some (to_kafka_bytes byte_codecs event);
}

abbrev no_services : Services (Unit {0})
no_services = record {
  compile = λ p. ret tt;
  search = λ p t. true;
  encode = λ t. ret [];
  send = λ key alert s. (ret tt, s);
  hincrby = λ key name n s. (ret tt, s);
}
