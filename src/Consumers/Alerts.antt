-- ===== src/Consumers/Alerts.antt =====
-- consumers/alert_consumer.py: the alert rules, and what a message sets off.
pub mod Fires
mod Tests
use log_foundry.Prelude.{
  ℕ, zero, suc, String, ◌≡◌, refl, sym, ap, ◌∙◌, ◌⊎◌, inl, inr, Bool, true, false, Option, none,
  some, List, [], ◌∷◌, ◌++◌, ◌^^◌, if◌then◌else◌, keep, append_assoc, append-nil, Outcome, and_then,
  ◌>>=◌, str_eq, ret, raise, Exc, value_error, attribute_error, type_error, key_error, Bool-cases,
  Outcome-cases, ret-ne-raise,
}
use log_foundry.Consumers.Kafka.{Bytes, Message}
use log_foundry.Consumers.Payload.{
  Json, null, text, array, object, Items, nil, cons, Fields, field, end, field_of, Reader, item,
  get, load_payload,
}
use log_foundry.Consumers.Base.{succeeded}

-- A rule: its pattern, which compiles, and its severity.
pub record AlertRule : Type 0 where
  pub pattern_str : Json
  pub severity : Json

-- What a message sets off, in order: an alert and whether Kafka took it, a counter and whether Redis
-- counted it.
pub data Act : Type 0 where
  alert : AlertRule → Bool → Act
  counter : String → Bool → Act

-- The calls that are used, of which nothing is assumed: regular expressions and encodings of Python,
-- `send_and_wait` and `hincrby`.
pub record Services (S : Type 0) : Type 0 where
  -- `re.compile(pattern, re.IGNORECASE)`
  pub compile : Json → Outcome (Unit {0})
  -- `regex.search(t) is not None`
  pub search : Json → String → Bool
  pub encode : String → Outcome Bytes
  pub send : Bytes → Json → S → Outcome (Unit {0}) × S
  pub hincrby : String → String → ℕ → S → Outcome (Unit {0}) × S

pub record Run (S : Type 0) : Type 0 where
  pub world : S
  pub journal : List Act

unfoldable pub list_of : Items → List Json
list_of nil = []
list_of (cons j items) = j ∷ list_of items

module _ {S : Type 0} (v : Services S) (rd : Reader) where
  -- One rule of alerts.yml; what `AlertRule` raises comes out.
  unfoldable pub load_rule : Json → Outcome AlertRule
  load_rule rule_def = do
    pattern ← item rule_def "pattern"
    severity ← item rule_def "severity"
    _ ← v.compile pattern
    ret (record { pattern_str = pattern; severity = severity })

  -- The errors that `except (KeyError, re.error)` catches; `value_error` stands for the latter.
  abbrev pub caught : Exc → Bool
  caught key_error = true
  caught value_error = true
  caught _ = false

  -- The rules of the file, in order: an invalid one is logged and left out.
  unfoldable pub load_rules : List Json → Outcome (List AlertRule)
  unfolding load_rule
  load_rules [] = ret []
  load_rules (rule_def ∷ rule_defs) =
      let rest = load_rules rule_defs in
      elim (load_rule rule_def) [
        | ret rule ↦ and_then rest (λ rules. ret (rule ∷ rules))
        | raise e ↦ if caught e then rest else raise e
      ]

  -- `for rule_def in config["rules"]`: what one iterates over, the error of each element of a text or
  -- of a dictionary being that of the first.
  unfoldable pub rule_defs_of : Json → Outcome (List Json)
  unfolding list_of
  rule_defs_of (array items) = ret (list_of items)
  rule_defs_of (text t) = if str_eq t "" then ret [] else raise type_error
  rule_defs_of (object end) = ret []
  rule_defs_of _ = raise type_error

  -- `_load_rules`: no file, nothing in it, or no rules in it leaves the consumer without rules.
  unfoldable pub load_rules_file : Bool → Outcome (Option Fields) → Outcome (List AlertRule)
  unfolding load_rules rule_defs_of field_of
  load_rules_file false config = ret []
  load_rules_file true config = do
    found ← config
    elim found [
      | none ↦ ret []
      | some fields ↦ elim (field_of "rules" fields) [
        | none ↦ ret []
        | some rules ↦ and_then (rule_defs_of rules) load_rules
      ]
    ]

  -- `rule.matches(message)`, which raises unless the message is a text.
  unfoldable pub matches : AlertRule → Json → Outcome Bool
  matches rule (text t) = ret (v.search rule.pattern_str t)
  matches rule _ = raise type_error

  -- `service.encode("utf-8")`
  unfoldable pub key_of_service : Json → Outcome Bytes
  key_of_service (text t) = v.encode t
  key_of_service _ = raise attribute_error

  abbrev pub alert_payload : Json → AlertRule → Json → Json → Json
  alert_payload payload rule service level = object (
      field "original_event" payload (
        field "alert_rule"
          (object (field "pattern" rule.pattern_str (field "severity" rule.severity end)))
          (field "service" service (field "level" level end))))

  -- The first `try` block of `_fire_alert`.
  unfoldable pub send_alert : Json → AlertRule → Json → Json → S → Outcome (Unit {0}) × S
  unfolding key_of_service
  send_alert payload rule service level s = elim (key_of_service service) [
    | raise e ↦ (raise e, s)
    | ret key ↦ v.send key (alert_payload payload rule service level) s
  ]

  -- `_fire_alert`: each of the two calls may fail; the error is only logged.
  unfoldable pub fire_alert : Json → AlertRule → Json → Json → Run S → Run S
  unfolding send_alert
  fire_alert payload rule service level r =
      let (o, s) = send_alert payload rule service level r.world in
      let name = rd.show service ^^ ":" ^^ rd.show level in
      let (o', s') = v.hincrby "metrics:alerts" name 1 s in
      record {
        world = s';
        journal = r.journal ++ alert rule (succeeded o) ∷ counter name (succeeded o') ∷ [];
      }

  -- `for rule in self._alert_rules`
  unfoldable pub check_rules :
      List AlertRule → Json → Json → Json → Json → Run S → Outcome (Unit {0}) × Run S
  unfolding matches fire_alert
  check_rules [] payload log_message service level r = (ret tt, r)
  check_rules (rule ∷ rules) payload log_message service level r =
      let fired =
        check_rules rules payload log_message service level
          (fire_alert payload rule service level r) in
      let passed = check_rules rules payload log_message service level r in
      elim (matches rule log_message) [
        | raise e ↦ (raise e, r)
        | ret found ↦ if found then fired else passed
      ]

  -- The event and the three entries that `process` reads.
  unfoldable pub read_event : Message → Outcome (Json × Json × Json × Json)
  read_event m = do
    payload ← load_payload rd m
    log_message ← get payload "message" (text "")
    service ← get payload "service" (text "unknown")
    level ← get payload "level" (text "UNKNOWN")
    ret (payload, log_message, service, level)

  unfoldable pub process : List AlertRule → Message → Run S → Outcome (Unit {0}) × Run S
  unfolding read_event check_rules
  process rules m r = elim (read_event m) [
    | raise e ↦ (raise e, r)
    | ret event ↦ check_rules rules event.0 event.1 event.2 event.3 r
  ]
