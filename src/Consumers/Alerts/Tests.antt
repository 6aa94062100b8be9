-- ===== src/Consumers/Alerts/Tests.antt =====
-- Alerts on concrete input.
use log_foundry.Prelude.{
  String, ◌≡◌, refl, str_eq, false, if◌then◌else◌, [], ◌∷◌, ret, raise, other, value_error, some,
  true, type_error,
}
use log_foundry.Consumers.Payload.{
  Json, null, text, array, Fields, nil, cons, object, field, end, item, field_of,
}
use log_foundry.Consumers.Sample.{reader}
use log_foundry.Consumers.Alerts.{
  AlertRule, Services, Run, load_rules, load_rule, load_rules_file, rule_defs_of, list_of,
}
use log_foundry.Consumers.Alerts.Fires.{Fires}

-- Patterns are plain words; "(" does not compile; Kafka is down.
abbrev services : Services (Unit {0})
services = record {
  compile =
      λ p. elim p [ text t ↦ if str_eq t "(" then raise value_error else ret tt | _ ↦ raise other ];
  search = λ p t. elim p [ text w ↦ str_eq w t | _ ↦ false ];
  encode = λ t. ret [];
  send = λ key alert s. (raise other, s);
  hincrby = λ key name n s. (ret tt, s);
}

abbrev rule_def : String → Json
rule_def p = object (field "pattern" (text p) (field "severity" (text "HIGH") end))

abbrev rule : String → AlertRule
rule p = record { pattern_str = text p; severity = text "HIGH" }

-- A pattern that does not compile and an entry without a pattern are left out.
loaded :
    load_rules services reader (rule_def "hi" ∷ rule_def "(" ∷ object end ∷ rule_def "ho" ∷ [])
    ≡ ret (rule "hi" ∷ rule "ho" ∷ [])
unfolding load_rules load_rule item field_of
loaded = refl

abbrev idle : Run (Unit {0})
idle = record { world = tt; journal = [] }

-- The file that holds them; and a file without rules.
abbrev rules_file : Json → Fields
rules_file rules = field "rules" rules end

from_file :
    load_rules_file services reader true
      (ret (some (rules_file (array (cons (rule_def "hi") (cons (object end) nil))))))
    ≡ ret (rule "hi" ∷ [])
unfolding load_rules_file load_rules load_rule rule_defs_of list_of item field_of
from_file = refl

no_rules : load_rules_file services reader true (ret (some (rules_file null))) ≡ raise type_error
unfolding load_rules_file rule_defs_of field_of
no_rules = refl
