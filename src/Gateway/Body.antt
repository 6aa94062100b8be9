-- ===== src/Gateway/Body.antt =====
-- sdk/logger.py and api/models.py: the JSON body that `_send_batch` posts, and its validation.
use log_foundry.Prelude.{
  ℕ, String, decimal, Option, none, some, List, [], ◌∷◌, Outcome, ◌>>=◌, ret, raise, value_error,
  Dict,
}
use log_foundry.Sdk.Event.{Value, Event}
use log_foundry.Consumers.Payload.{
  Json, number, text, array, object, Items, nil, cons, Fields, field, end, field_of,
}
use log_foundry.Gateway.Models.{LogEvent, Codecs, validate_batch}

-- The dictionary that `emit` makes, with the metadata as JSON.
abbrev pub event_fields : Event → Fields → Fields
event_fields e fs = field "id" (text e.id) (
    field "service" (text e.service) (
      field "level" (text e.level) (
        field "message" (text e.message)
          (field "timestamp" (text e.timestamp) (field "metadata" (object fs) end)))))

-- `json.dumps` of what an event holds; `other_json` is what it makes of another Python object, which
-- is an error where it knows nothing of it.
module _ (other_json : ℕ → Outcome Json) where
  unfoldable pub value_json : Value → Outcome Json
  value_json (Value.text t) = ret (text t)
  value_json (Value.num n) = ret (number (decimal n))
  value_json (Value.object o) = other_json o

  unfoldable pub metadata_json : Dict Value → Outcome Fields
  unfolding value_json
  metadata_json [] = ret end
  metadata_json ((key, value) ∷ rest) = do
    j ← value_json value
    fs ← metadata_json rest
    ret (field key j fs)

  unfoldable pub event_json : Event → Outcome Json
  unfolding metadata_json
  event_json e = do fs ← metadata_json e.metadata; ret (object (event_fields e fs))

  unfoldable pub events_json : List Event → Outcome Items
  unfolding event_json
  events_json [] = ret nil
  events_json (e ∷ events) = do j ← event_json e; items ← events_json events; ret (cons j items)

  -- `json.dumps({"events": events})`, as a value.
  unfoldable pub body_json : List Event → Outcome Json
  unfolding events_json
  body_json events = do items ← events_json events; ret (object (field "events" (array items) end))

  -- The same as text, by the printer of JSON: what `_send_batch` is a function of.
  unfoldable pub dumps_by : (Json → String) → List Event → Option String
  unfolding body_json
  dumps_by print events = elim (body_json events) [ ret j ↦ some (print j) | raise e ↦ none ]

-- The body of the request, before `BatchIngestRequest` is validated.
unfoldable pub read_batch :
    {B : Type 0} → Codecs B → (ℕ → String) → ℕ → Option Json → Outcome (List LogEvent)
unfolding validate_batch
read_batch c new_id now (some (array items)) = validate_batch c new_id now items
read_batch c new_id now _ = raise value_error

unfoldable pub validate_body :
    {B : Type 0} → Codecs B → (ℕ → String) → ℕ → Json → Outcome (List LogEvent)
unfolding read_batch
validate_body c new_id now (object fs) = read_batch c new_id now (field_of "events" fs)
validate_body c new_id now _ = raise value_error
