-- ===== src/Metrics/Count.antt =====
-- consumers/metrics_consumer.py: `process`.
use log_foundry.Prelude.{String, ◌^^◌, List, [], ◌∷◌, Outcome, ◌>>=◌, ret, raise, other}
use log_foundry.Consumers.Kafka.{Message}
use log_foundry.Consumers.Payload.{Json, text, number, Reader, get, load_payload}
use log_foundry.Metrics.Redis.{Command, incr, hincrby, Redis}

-- The commands that are queued.
unfoldable pub pipeline : String × String × String → List Command
pipeline (service, level, both) =
    incr "metrics:total"
    ∷ hincrby "metrics:services" service 1
    ∷ hincrby "metrics:levels" level 1
    ∷ hincrby "metrics:service_levels" both 1
    ∷ []

module _ (rd : Reader) where
  -- The two entries of the event that are read.
  unfoldable pub labels_of : Message → Outcome (Json × Json)
  labels_of m = do
    payload ← load_payload rd m
    service ← get payload "service" (text "unknown")
    level ← get payload "level" (text "UNKNOWN")
    ret (service, level)

  -- An argument of a command, as redis-py encodes it: a text or a number; its `DataError` is raised
  -- before anything is sent.
  unfoldable pub encode_field : Json → Outcome String
  encode_field (text t) = ret t
  encode_field (number n) = ret (rd.show (number n))
  encode_field _ = raise other

  -- The names of the three counters, `f"{service}:{level}"` being a text whatever the two are.
  unfoldable pub names_of : Message → Outcome (String × String × String)
  unfolding labels_of encode_field
  names_of m = do
    labels ← labels_of m
    service ← encode_field labels.0
    level ← encode_field labels.1
    ret (service, level, rd.show labels.0 ^^ ":" ^^ rd.show labels.1)

  unfoldable pub process : {S : Type 0} → Redis S → Message → S → Outcome (Unit {0}) × S
  unfolding names_of pipeline
  process redis m s = elim (names_of m) [
    | raise e ↦ (raise e, s)
    | ret names ↦ redis.execute (pipeline names) s
  ]
