-- ===== src/Metrics/Endpoint.antt =====
-- The counters of consumers/metrics_consumer.py, as `get_metrics` of api/routers/query.py shows them.
use log_foundry.Prelude.{
  ℕ, ◌≡◌, refl, ◌∙◌, subst, String, List, [], ◌∷◌, map, length, keep, arith, Dict, Outcome, ret,
  Option, some, none, str_eq, Bool, true, false, ◌&&◌, lookup,
}
use log_foundry.Consumers.Kafka.{Message}
use log_foundry.Consumers.Payload.{Reader}
use log_foundry.Metrics.Redis.{Redis, Counters}
use log_foundry.Metrics.Totals.{weigh, Counted, process_all, all_names, process_all-Counted}
use log_foundry.Metrics.Exposition.{Line, both_labels, get_metrics, parts_of_metrics}
use log_foundry.Metrics.Shows.{amounts, in_turn-printed}
use log_foundry.Metrics.Worth.{Choice, printed, Reads}

abbrev pub no_counters : Counters
no_counters = record { keys = []; hashes = λ key. [] }

-- The samples of one metric whose labels pass a test.
abbrev pub of_metric : String → (Dict String → Bool) → Choice
of_metric metric p name labels = str_eq name metric && p labels

-- The values that are shown for the names of some events: each counts once, under its labels.
pub record Exposes (names : List (String × String × String)) (lines : List Line) : Type 0 where
  pub events : printed (of_metric "logfoundry_logs_total" (λ labels. true)) lines ≡ length names
  pub services :
      (p : Dict String → Bool)
      → printed (of_metric "logfoundry_logs_by_service" p) lines
        ≡ length (keep (λ key. p (("service", key) ∷ [])) (map (λ n. n.0) names))
  pub levels :
      (p : Dict String → Bool)
      → printed (of_metric "logfoundry_logs_by_level" p) lines
        ≡ length (keep (λ key. p (("level", key) ∷ [])) (map (λ n. n.1) names))
  pub service_levels :
      (p : Dict String → Bool)
      → printed (of_metric "logfoundry_logs_by_service_level" p) lines
        ≡ length (
            keep
              (λ key. elim (both_labels key) [ none ↦ false | some labels ↦ p labels ])
              (map (λ n. n.2) names))

-- A metric of another name adds nothing.
pub weigh_none : (p : String → Bool) (d : Dict ℕ) → ((key : String) → p key ≡ false) → weigh p d ≡ 0
weigh_none p [] none_passes = refl
weigh_none p ((key, n) ∷ d) none_passes =
    ground (arith, none_passes key, weigh_none p d none_passes)

never : (o : Option (Dict String)) → elim o [ none ↦ false | some found ↦ false ] ≡ false
never none = refl
never (some found) = refl

pub weigh_unlabelled :
    (labels : String → Option (Dict String)) (d : Dict ℕ)
    → weigh (λ key. elim (labels key) [ none ↦ false | some found ↦ false ]) d ≡ 0
weigh_unlabelled labels d = weigh_none _ d (λ key. never (labels key))

module _ (int : String → Outcome ℕ) (reads : Reads int) {S : Type 0} (redis : Redis S) where
  pub get_metrics-printed :
      (w : Choice) (s : S) (lines : List Line)
      → (get_metrics int redis s).0 ≡ ret lines
      → printed w lines ≡ amounts int reads redis w parts_of_metrics (redis.counters s)
  unfolding get_metrics
  get_metrics-printed w s lines h =
      in_turn-printed int reads redis w parts_of_metrics s lines
        (refl, (refl, (refl, (refl, (refl, (refl, tt)))))) h

  -- If nothing was counted before, and the messages are all processed without an error, then
  -- get_metrics, when it answers, shows their number as the total, and for any selection of labels
  -- the samples of services, those of levels and those of both add up to the number of messages
  -- with such labels; a message whose key is not in two parts is missing among the last.
  pub get_metrics-Exposes :
      (rd : Reader) (ms : List Message) (s : S) (lines : List Line)
      → redis.counters s ≡ no_counters
      → (process_all rd redis ms s).0 ≡ ret tt
      → (get_metrics int redis (process_all rd redis ms s).1).0 ≡ ret lines
      → Exposes (all_names rd redis ms) lines
  unfolding lookup
  get_metrics-Exposes rd ms s lines none_yet done h =
      let after = (process_all rd redis ms s).1 in
      let counted =
        subst (λ c. Counted (all_names rd redis ms) c (redis.counters after)) none_yet
          (process_all-Counted rd redis ms s done) in
      let c = redis.counters after in
      record {
        events =
            get_metrics-printed (of_metric "logfoundry_logs_total" (λ labels. true)) after lines h
            ∙ omega (
              arith,
              counted.events,
              weigh_none _ (c.hashes "metrics:services") (λ key. refl),
              weigh_none _ (c.hashes "metrics:levels") (λ key. refl),
              weigh_unlabelled both_labels (c.hashes "metrics:service_levels"),
              weigh_unlabelled both_labels (c.hashes "metrics:alerts"),
            );
        services = λ p.
            get_metrics-printed (of_metric "logfoundry_logs_by_service" p) after lines h
            ∙ omega (
              arith,
              counted.services _,
              weigh_none _ (c.hashes "metrics:levels") (λ key. refl),
              weigh_unlabelled both_labels (c.hashes "metrics:service_levels"),
              weigh_unlabelled both_labels (c.hashes "metrics:alerts"),
            );
        levels = λ p.
            get_metrics-printed (of_metric "logfoundry_logs_by_level" p) after lines h
            ∙ omega (
              arith,
              counted.levels _,
              weigh_none _ (c.hashes "metrics:services") (λ key. refl),
              weigh_unlabelled both_labels (c.hashes "metrics:service_levels"),
              weigh_unlabelled both_labels (c.hashes "metrics:alerts"),
            );
        service_levels = λ p.
            get_metrics-printed (of_metric "logfoundry_logs_by_service_level" p) after lines h
            ∙ omega (
              arith,
              counted.service_levels _,
              weigh_none _ (c.hashes "metrics:services") (λ key. refl),
              weigh_none _ (c.hashes "metrics:levels") (λ key. refl),
              weigh_unlabelled both_labels (c.hashes "metrics:alerts"),
            );
      }
