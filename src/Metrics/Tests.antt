-- ===== src/Metrics/Tests.antt =====
-- Counting and its exposition on concrete input.
use log_foundry.Prelude.{
  Option, Outcome, false, raise, other, sym, subst, ret_inj, ret-ne-raise, ℕ, true, ◌≡◌, refl,
  String, decimal, decimal_fuel, List, [], ◌∷◌, none, some, ret, ◌==◌, if◌then◌else◌, lookup,
}
use log_foundry.Consumers.Kafka.{Message}
use log_foundry.Consumers.Payload.{
  Json, text, object, field, end, Reader, load_payload, get, field_of,
}
use mathlib.Core.List.{Perm}
use mathlib.Core.List.Perm
use log_foundry.Consumers.Kafka.{Call}
use log_foundry.Consumers.Base.{Run}
use log_foundry.Consumers.Lifecycle.{Client, Life}
use log_foundry.Consumers.Sample.{World, line, fresh}
use log_foundry.Metrics.Redis.{Redis, shown_key, raise_by, obey, obey_all}
use log_foundry.Metrics.Count.{labels_of, encode_field, names_of, pipeline, process}
use log_foundry.Metrics.Totals.{process_all, all_names}
use log_foundry.Metrics.Exposition.{
  Line, plain, sample, split, both_labels, put, sorted, int_or_0, samples, run_part, in_turn,
  get_metrics, print_line,
}
use log_foundry.Metrics.Endpoint.{no_counters, Exposes, get_metrics-Exposes}
use log_foundry.Metrics.Sample.{int, int-Reads, server}

-- The first byte of a message tells its service.
abbrev event : String → Json
event service = object (field "service" (text service) (field "level" (text "INFO") end))

abbrev shown_text : Json → String
shown_text (text t) = t
shown_text _ = "?"

abbrev reader : Reader
reader = record {
  decode = λ bytes. elim bytes [ [] ↦ none | b ∷ bs ↦ some (if b == 1 then "pay" else "a:b") ];
  loads = λ t. some (event t);
  dumps = λ j. "{}";
  show = λ j. shown_text j;
  nonzero = λ t. true;
  uuid = λ j. none;
  fromisoformat = λ t. none;
}

abbrev message : ℕ → Message
message b = record {
  topic = "logs.ingest";
  partition = 0;
  offset = b;
  key = none;
  value = some (b ∷ []);
}

abbrev messages : List Message
messages = message 1 ∷ message 2 ∷ message 1 ∷ []

counted : (process_all reader server messages no_counters).0 ≡ ret tt
unfolding process names_of labels_of encode_field load_payload get field_of
counted = refl

abbrev lines : List Line
lines =
    plain "# HELP logfoundry_logs_total Total number of log events ingested"
    ∷ plain "# TYPE logfoundry_logs_total counter"
    ∷ sample "logfoundry_logs_total" [] 3
    ∷ plain ""
    ∷ plain "# HELP logfoundry_logs_by_service Log events by service"
    ∷ plain "# TYPE logfoundry_logs_by_service counter"
    ∷ sample "logfoundry_logs_by_service" (("service", "a:b") ∷ []) 1
    ∷ sample "logfoundry_logs_by_service" (("service", "pay") ∷ []) 2
    ∷ plain ""
    ∷ plain "# HELP logfoundry_logs_by_level Log events by level"
    ∷ plain "# TYPE logfoundry_logs_by_level counter"
    ∷ sample "logfoundry_logs_by_level" (("level", "INFO") ∷ []) 3
    ∷ plain ""
    ∷ plain "# HELP logfoundry_logs_by_service_level Log events by service and level"
    ∷ plain "# TYPE logfoundry_logs_by_service_level counter"
    ∷ sample "logfoundry_logs_by_service_level" (("service", "pay") ∷ ("level", "INFO") ∷ []) 2
    ∷ plain ""
    ∷ plain
        "# HELP logfoundry_batch_insert_fallback_total Total times batch insert hit a poison pill and fell back to single inserts"
    ∷ plain "# TYPE logfoundry_batch_insert_fallback_total counter"
    ∷ sample "logfoundry_batch_insert_fallback_total" [] 0
    ∷ plain ""
    ∷ plain "# HELP logfoundry_alerts_total Alerts triggered by pattern matching"
    ∷ plain "# TYPE logfoundry_alerts_total counter"
    ∷ []

shows_lines :
    (get_metrics int server (process_all reader server messages no_counters).1).0 ≡ ret lines
unfolding process names_of labels_of encode_field load_payload get field_of pipeline obey_all obey
    raise_by get_metrics in_turn run_part int_or_0 samples sorted put both_labels split decimal
    decimal_fuel lookup
shows_lines = refl

get_metrics-Exposes_example : Exposes (all_names reader server messages) lines
get_metrics-Exposes_example =
    get_metrics-Exposes int int-Reads server reader messages no_counters lines refl counted
      shows_lines

printed_line :
    print_line (sample "m" (("service", "pay") ∷ ("level", "INFO") ∷ []) 2)
    ≡ "m{service=\"pay\",level=\"INFO\"} 2"
unfolding print_line decimal decimal_fuel
printed_line = refl

no_counter :
    (key : String) (o : Option String)
    → ◌≡◌ {A = Outcome (Option String)} (ret none) (ret o)
    → o ≡ shown_key (lookup key [])
unfolding lookup
no_counter key o h = sym (ret_inj h)

-- A Redis that is down, beside a broker of two messages.
abbrev down : Redis World
down = record {
  execute = λ commands w. (raise other, w);
  get = λ key w. (ret none, w);
  hgetall = λ key w. (ret [], w);
  counters = λ w. no_counters;
  execute-counters = λ commands w h. absurd (ret-ne-raise (sym h));
  get-counters = λ key w. refl;
  get-ret = λ key w o h. no_counter key o h;
  hgetall-counters = λ key w. refl;
  hgetall-ret = λ key w dict h. subst (λ d. Perm d []) (ret_inj h) Perm.rfl;
}

abbrev waiting : Life (Run World)
waiting = record {
  run = record { world = fresh (((0, line 1 ∷ line 2 ∷ []) ∷ []) ∷ []); journal = [] };
  running = false;
  acts = [];
}

abbrev answers : Client → Call World (Unit {0})
answers p w = (ret tt, w)
