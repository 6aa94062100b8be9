-- ===== src/Consumers/Payload.antt =====
-- JSON values, as `json.loads` gives them to the consumers, and the parts of a log event that they
-- read: `payload[key]` and `payload.get(key)`.
use log_foundry.Prelude.{
  ℕ, String, Bool, true, false, not, Option, none, some, str_eq, if◌then◌else◌, Outcome, ret, raise,
  unicode_error, json_error, key_error, type_error, attribute_error,
}
use log_foundry.Consumers.Kafka.{Bytes, Message}

-- A number is kept as it is written.
mutual
  pub data Json : Type 0 where
    null : Json
    boolean : Bool → Json
    number : String → Json
    text : String → Json
    array : Items → Json
    object : Fields → Json

  pub data Items : Type 0 where
    nil : Items
    cons : Json → Items → Items

  pub data Fields : Type 0 where
    end : Fields
    field : String → Json → Fields → Fields

-- Python's codecs and constructors, `none` where they raise.
pub record Reader : Type 0 where
  pub decode : Bytes → Option String
  pub loads : String → Option Json
  pub dumps : Json → String
  -- `str(x)`
  pub show : Json → String
  -- whether a number is not zero
  pub nonzero : String → Bool
  -- `UUID(x)`
  pub uuid : Json → Option String
  -- `datetime.fromisoformat(s)`, an instant
  pub fromisoformat : String → Option ℕ

unfoldable pub field_of : String → Fields → Option Json
field_of k end = none
field_of k (field j v fs) = if str_eq j k then some v else field_of k fs

-- `payload[key]`
unfoldable pub item : Json → String → Outcome Json
unfolding field_of
item (object fs) k = elim (field_of k fs) [ none ↦ raise key_error | some v ↦ ret v ]
item _ k = raise type_error

-- `payload.get(key, default)`
unfoldable pub get : Json → String → Json → Outcome Json
unfolding field_of
get (object fs) k d = elim (field_of k fs) [ none ↦ ret d | some v ↦ ret v ]
get _ k d = raise attribute_error

-- `if x`
unfoldable pub truthy : Reader → Json → Bool
truthy c null = false
truthy c (boolean b) = b
truthy c (number n) = c.nonzero n
truthy c (text t) = not (str_eq t "")
truthy c (array nil) = false
truthy c (array (cons _ _)) = true
truthy c (object end) = false
truthy c (object (field _ _ _)) = true

-- `json.loads(message.value.decode("utf-8"))`
unfoldable pub load_payload : Reader → Message → Outcome Json
load_payload c m = elim m.value [
  | none ↦ raise attribute_error
  | some bytes ↦ elim (c.decode bytes) [
    | none ↦ raise unicode_error
    | some t ↦ elim (c.loads t) [ none ↦ raise json_error | some payload ↦ ret payload ]
  ]
]
