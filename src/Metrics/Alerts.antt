-- ===== src/Metrics/Alerts.antt =====
-- consumers/alert_consumer.py and api/routers/query.py: the alerts that were fired, as `get_metrics`
-- shows them.
use log_foundry.Prelude.{ℕ, ◌≡◌, String, Bool, true, ◌&&◌, List, [], ◌∷◌, length, keep, Dict, ret}
use log_foundry.Consumers.Kafka.{Bytes, Message}
use log_foundry.Consumers.Payload.{Json, Reader}
use log_foundry.Consumers.Alerts.{AlertRule, Act, alert, counter, Services, Run, process}
use log_foundry.Consumers.Alerts.Fires.{counters_of}
use log_foundry.Metrics.Redis.{hincrby, Redis, obey}
use log_foundry.Metrics.Totals.{weigh}

-- Whether Redis counted every alert.
abbrev pub all_counted : List Act → Bool
all_counted [] = true
all_counted (alert rule ok ∷ acts) = all_counted acts
all_counted (counter name ok ∷ acts) = ok && all_counted acts

module _ {S : Type 0} (v : Services S) (rd : Reader) where
  -- The messages one after the other, whatever becomes of each; a retry is the same message again.
  unfoldable pub process_each : List AlertRule → List Message → Run S → Run S
  unfolding process
  process_each rules [] r = r
  process_each rules (m ∷ ms) r = process_each rules ms (process v rd rules m r).1

module _ {S : Type 0} (v : Services S) (rd : Reader) (redis : Redis S) where
  -- The calls of the alert consumer on the counters: `hincrby` does what it says where it returns,
  -- and the sending of an alert to Kafka changes none.
  pub record Laws : Type 0 where
    pub hincrby-counters :
        (key name : String) (n : ℕ) (s : S)
        → (v.hincrby key name n s).0 ≡ ret tt
        → redis.counters (v.hincrby key name n s).1 ≡ obey (hincrby key name n) (redis.counters s)
    pub send-counters :
        (key : Bytes) (j : Json) (s : S) → redis.counters (v.send key j s).1 ≡ redis.counters s

  abbrev pub alerts_held : S → Dict ℕ
  alerts_held s = (redis.counters s).hashes "metrics:alerts"

  module _ (laws : Laws) (p : String → Bool) where
    -- The hash agrees with the journal, if every alert of it was counted.
    record Agrees (r : Run S) : Type 0 where
      agrees :
          all_counted r.journal ≡ true
          → weigh p (alerts_held r.world) ≡ length (keep p (counters_of r.journal))
