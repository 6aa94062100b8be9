-- ===== src/Metrics/Exposition.antt =====
-- api/routers/query.py: `get_metrics`, and the text that it answers.
use log_foundry.Prelude.{
  ℕ, ◌==◌, String, ◌^^◌, decimal, Option, none, some, List, [], ◌∷◌, ◌++◌, str_eq, if◌then◌else◌,
  Dict, Outcome, ◌>>=◌, ret, raise,
}
use Prim.Native.String
use Prim.Native.Char.{Char, code}
use Prim.Native.Nat.{Ordering}
use log_foundry.Metrics.Redis.{Redis}

-- A line of the exposition: a comment or nothing; or a metric, its labels and its value.
pub data Line : Type 0 where
  plain : String → Line
  sample : String → Dict String → ℕ → Line

-- `key_str.split(":")`
abbrev pub to_first : Char → List String → List String
to_first c [] = []
to_first c (part ∷ parts) = String.◌∷◌ c part ∷ parts

unfoldable pub split : String → List String
split String.[] = "" ∷ []
split (String.◌∷◌ c t) =
    let parts = split t in if code c == 58 then "" ∷ parts else to_first c parts

-- `sorted(map.items())`: the keys of a dictionary differ, so they decide.
unfoldable pub put : String × String → Dict String → Dict String
put item [] = item ∷ []
put item (first ∷ rest) =
    let later = first ∷ put item rest in
    elim (String.compare item.0 first.0) [ Ordering.gt ↦ later | _ ↦ item ∷ first ∷ rest ]

unfoldable pub sorted : Dict String → Dict String
unfolding put
sorted [] = []
sorted (item ∷ items) = put item (sorted items)

-- The labels under which an entry is printed: those of a service, of a level, and of both, which
-- leaves out an entry whose key is not in two parts.
abbrev pub service_label : String → Option (Dict String)
service_label name = some (("service", name) ∷ [])

abbrev pub level_label : String → Option (Dict String)
level_label name = some (("level", name) ∷ [])

abbrev pub labels_of_parts : List String → Option (Dict String)
labels_of_parts (service ∷ level ∷ []) = some (("service", service) ∷ ("level", level) ∷ [])
labels_of_parts _ = none

unfoldable pub both_labels : String → Option (Dict String)
unfolding split
both_labels key = labels_of_parts (split key)

-- A part of the exposition: its comments, the name of the metric and the key that is read, of a
-- counter or of a hash of counters.
pub data Part : Type 0 where
  key_part : List Line → String → String → Part
  hash_part : List Line → String → (String → Option (Dict String)) → String → Part

-- The parts of `get_metrics`, in the order of its calls.
abbrev pub parts_of_metrics : List Part
parts_of_metrics =
    key_part
      (plain "# HELP logfoundry_logs_total Total number of log events ingested"
        ∷ plain "# TYPE logfoundry_logs_total counter"
        ∷ [])
      "logfoundry_logs_total" "metrics:total"
    ∷ hash_part
        (plain ""
          ∷ plain "# HELP logfoundry_logs_by_service Log events by service"
          ∷ plain "# TYPE logfoundry_logs_by_service counter"
          ∷ [])
        "logfoundry_logs_by_service" service_label "metrics:services"
    ∷ hash_part
        (plain ""
          ∷ plain "# HELP logfoundry_logs_by_level Log events by level"
          ∷ plain "# TYPE logfoundry_logs_by_level counter"
          ∷ [])
        "logfoundry_logs_by_level" level_label "metrics:levels"
    ∷ hash_part
        (plain ""
          ∷ plain "# HELP logfoundry_logs_by_service_level Log events by service and level"
          ∷ plain "# TYPE logfoundry_logs_by_service_level counter"
          ∷ [])
        "logfoundry_logs_by_service_level" both_labels "metrics:service_levels"
    ∷ key_part
        (plain ""
          ∷ plain
              "# HELP logfoundry_batch_insert_fallback_total Total times batch insert hit a poison pill and fell back to single inserts"
          ∷ plain "# TYPE logfoundry_batch_insert_fallback_total counter"
          ∷ [])
        "logfoundry_batch_insert_fallback_total" "metrics:batch_insert_fallback_total"
    ∷ hash_part
        (plain ""
          ∷ plain "# HELP logfoundry_alerts_total Alerts triggered by pattern matching"
          ∷ plain "# TYPE logfoundry_alerts_total counter"
          ∷ [])
        "logfoundry_alerts_total" both_labels "metrics:alerts"
    ∷ []

abbrev pub chain : {S A B : Type 0} → Outcome A × S → (A → S → Outcome B × S) → Outcome B × S
chain (ret a, s) f = f a s
chain (raise e, s) f = (raise e, s)

-- `int(t)`
module _ (int : String → Outcome ℕ) where
  -- `int(val) if val else 0`
  unfoldable pub int_or_0 : Option String → Outcome ℕ
  int_or_0 none = ret 0
  int_or_0 (some t) = if str_eq t "" then ret 0 else int t

  -- The loop over the entries of a hash.
  unfoldable pub samples :
      String → (String → Option (Dict String)) → Dict String → Outcome (List Line)
  unfolding int_or_0
  samples name labels [] = ret []
  samples name labels ((key, val) ∷ items) =
      let rest = samples name labels items in
      elim (labels key) [
        | none ↦ rest
        | some found ↦ do n ← int_or_0 (some val); lines ← rest; ret (sample name found n ∷ lines)
      ]

  module _ {S : Type 0} (redis : Redis S) where
    unfoldable pub run_part : Part → S → Outcome (List Line) × S
    unfolding int_or_0 samples sorted
    run_part (key_part header name key) s =
        chain (redis.get key s)
          (λ val s. ((do n ← int_or_0 val; ret (header ++ sample name [] n ∷ [])), s))
    run_part (hash_part header name labels key) s =
        chain (redis.hgetall key s)
          (λ dict s. ((do lines ← samples name labels (sorted dict); ret (header ++ lines)), s))

    unfoldable pub in_turn : List Part → S → Outcome (List Line) × S
    unfolding run_part
    in_turn [] s = (ret [], s)
    in_turn (part ∷ parts) s =
        chain (run_part part s)
          (λ lines s. chain (in_turn parts s) (λ more s. (ret (lines ++ more), s)))

    -- The lines of `get_metrics`.
    unfoldable pub get_metrics : S → Outcome (List Line) × S
    unfolding in_turn
    get_metrics = in_turn parts_of_metrics

-- The text of a line, `name="value"` for a label.
abbrev quoted : String → String → String
quoted name value = name ^^ "=\"" ^^ value ^^ "\""

abbrev pub print_labels : Dict String → String
print_labels [] = ""
print_labels ((name, value) ∷ []) = quoted name value
print_labels ((name, value) ∷ rest) = quoted name value ^^ "," ^^ print_labels rest

unfoldable pub print_line : Line → String
print_line (plain t) = t
print_line (sample name [] n) = name ^^ " " ^^ decimal n
print_line (sample name (label ∷ labels) n) =
    name ^^ "{" ^^ print_labels (label ∷ labels) ^^ "} " ^^ decimal n

-- `"\n".join(lines) + "\n"`, the lines being some.
unfoldable pub content : List Line → String
unfolding print_line
content [] = ""
content (line ∷ lines) = print_line line ^^ "\n" ^^ content lines
