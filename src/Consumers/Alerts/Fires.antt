-- ===== src/Consumers/Alerts/Fires.antt =====
-- consumers/alert_consumer.py: which alerts `process` fires.
use log_foundry.Prelude.{String, ◌≡◌, refl, ap, List, [], ◌∷◌, ◌++◌, map, Outcome, ret}
use log_foundry.Consumers.Payload.{Reader}
use log_foundry.Consumers.Alerts.{AlertRule, Act, alert, counter, Services, Run}

-- The rules whose alerts went out, whether Kafka took them or not, and the counters that were raised.
abbrev pub alerts_of : List Act → List AlertRule
alerts_of [] = []
alerts_of (alert rule ok ∷ acts) = rule ∷ alerts_of acts
alerts_of (counter name ok ∷ acts) = alerts_of acts

abbrev pub counters_of : List Act → List String
counters_of [] = []
counters_of (alert rule ok ∷ acts) = counters_of acts
counters_of (counter name ok ∷ acts) = name ∷ counters_of acts

pub counters_of-append : (a b : List Act) → counters_of (a ++ b) ≡ counters_of a ++ counters_of b
counters_of-append [] b = refl
counters_of-append (alert rule ok ∷ a) b = counters_of-append a b
counters_of-append (counter name ok ∷ a) b = ap (λ l. name ∷ l) (counters_of-append a b)

module _ {S : Type 0} (v : Services S) (rd : Reader) where
  -- What a run of the rules adds: an alert and a count for each of some rules.
  pub record Fires (rules : List AlertRule) (name : String) (r : Run S)
      (x : Outcome (Unit {0}) × Run S) : Type 0 where
    pub outcome : x.0 ≡ ret tt
    pub alerts : alerts_of x.1.journal ≡ alerts_of r.journal ++ rules
    pub counters : counters_of x.1.journal ≡ counters_of r.journal ++ map (λ rule. name) rules
