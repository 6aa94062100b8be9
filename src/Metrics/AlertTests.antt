-- ===== src/Metrics/AlertTests.antt =====
-- The alerts at the endpoint, on concrete input.
use log_foundry.Prelude.{String, str_eq, false, List, [], ◌∷◌, ret, raise, other}
use log_foundry.Consumers.Payload.{Json, text, Reader}
use log_foundry.Consumers.Sample.{reader as plain_reader, line}
use log_foundry.Consumers.Alerts.{AlertRule, Services, Run}
use log_foundry.Metrics.Redis.{Counters, hincrby, obey}
use log_foundry.Metrics.Exposition.{Line, plain, sample}
use log_foundry.Metrics.Endpoint.{no_counters}
use log_foundry.Metrics.Alerts.{process_each}

-- Patterns are plain words; Kafka is down, Redis counts.
abbrev services : Services Counters
services = record {
  compile = λ p. ret tt;
  search = λ p t. elim p [ text w ↦ str_eq w t | _ ↦ false ];
  encode = λ t. ret [];
  send = λ key alert c. (raise other, c);
  hincrby = λ key name n c. (ret tt, obey (hincrby key name n) c);
}

abbrev shown_text : Json → String
shown_text (text t) = t
shown_text _ = "?"

abbrev reader : Reader
reader = record plain_reader { show = λ j. shown_text j }

abbrev rules : List AlertRule
rules =
    record { pattern_str = text "hi"; severity = text "HIGH" }
    ∷ record { pattern_str = text "ho"; severity = text "LOW" }
    ∷ []

-- The same message twice.
abbrev after : Run Counters
after =
    process_each services reader rules (line 1 ∷ line 1 ∷ [])
      (record { world = no_counters; journal = [] })

abbrev lines : List Line
lines =
    plain "# HELP logfoundry_logs_total Total number of log events ingested"
    ∷ plain "# TYPE logfoundry_logs_total counter"
    ∷ sample "logfoundry_logs_total" [] 0
    ∷ plain ""
    ∷ plain "# HELP logfoundry_logs_by_service Log events by service"
    ∷ plain "# TYPE logfoundry_logs_by_service counter"
    ∷ plain ""
    ∷ plain "# HELP logfoundry_logs_by_level Log events by level"
    ∷ plain "# TYPE logfoundry_logs_by_level counter"
    ∷ plain ""
    ∷ plain "# HELP logfoundry_logs_by_service_level Log events by service and level"
    ∷ plain "# TYPE logfoundry_logs_by_service_level counter"
    ∷ plain ""
    ∷ plain
        "# HELP logfoundry_batch_insert_fallback_total Total times batch insert hit a poison pill and fell back to single inserts"
    ∷ plain "# TYPE logfoundry_batch_insert_fallback_total counter"
    ∷ sample "logfoundry_batch_insert_fallback_total" [] 0
    ∷ plain ""
    ∷ plain "# HELP logfoundry_alerts_total Alerts triggered by pattern matching"
    ∷ plain "# TYPE logfoundry_alerts_total counter"
    ∷ sample "logfoundry_alerts_total" (("service", "pay") ∷ ("level", "INFO") ∷ []) 2
    ∷ []
