-- ===== src/Replay/Tests.antt =====
-- The replay on concrete input.
use log_foundry.Prelude.{
  ◌≡◌, ◌≤◌, ◌<◌, refl, true, ◌==◌, if◌then◌else◌, Option, none, some, List, [], ◌∷◌, length, false,
  Outcome, ret, raise, json_error, type_error, arith,
}
use log_foundry.Consumers.Kafka.{Bytes}
use log_foundry.Consumers.Payload.{Json, text, object, field, end, Reader, get, truthy, field_of}
use log_foundry.Replay.{
  Value, Services, Run, publish, commit, replay_loop, replay_round, after_getone, after_message,
  replay_message, skip_garbage, replay_value, publish_value, after_send, payload_of, commit_one,
}
use log_foundry.Consumers.Lifecycle.{
  consumer, producer, opened, closed, Clients, open_part, close_part,
}
use log_foundry.Replay.Script.{replay_dlq}

-- A topic is a list of messages; an empty one is no JSON, one that starts with a 0 holds no value.
abbrev pub taken : Option Value → Outcome (Option Value)
taken o = ret o

abbrev pub take : List Value → Outcome (Option Value) × List Value
take [] = (ret none, [])
take (b ∷ bs) = (ret (some b), bs)

none-ne-some : {b : Value} → ¬ (taken none ≡ taken (some b))
none-ne-some h = cc

pub take-left :
    (topic : List Value) (b : Value)
    → (take topic).0 ≡ ret (some b)
    → length (take topic).1 < length topic
take-left [] b h = absurd (none-ne-some h)
take-left (c ∷ topic) b h = omega arith

pub take-keeps : (topic : List Value) → length (take topic).1 ≤ length topic
take-keeps [] = omega arith
take-keeps (c ∷ topic) = omega arith

abbrev pub wrapper : Value → Outcome Json
wrapper none = raise type_error
wrapper (some []) = raise json_error
wrapper (some (b ∷ _)) =
    ret (if b == 0 then object end else object (field "original_value" (text "{}") end))

abbrev message : Bytes → Value
message b = some b

abbrev pub services : Services (List Value)
services = record {
  getone = take;
  commit_offsets = λ s. (ret tt, s);
  send = λ b s. (ret tt, s);
  loads = wrapper;
  validate = λ j. true;
  encode = λ t. ret (1 ∷ []);
  left = length;
  getone-left = take-left;
  getone-keeps = take-keeps;
  commit-left = λ s. refl;
  send-left = λ b s. refl;
}

abbrev pub reader : Reader
reader = record {
  decode = λ b. none;
  loads = λ t. none;
  dumps = λ j. "";
  show = λ j. "";
  nonzero = λ t. true;
  uuid = λ j. none;
  fromisoformat = λ t. none;
}

abbrev idle : Run (List Value)
idle = record {
  world =
      message (1 ∷ []) ∷ message [] ∷ message (0 ∷ []) ∷ message (1 ∷ []) ∷ message (1 ∷ []) ∷ [];
  replayed = 0;
  journal = [];
}

-- Two of three are replayed; what cannot be is skipped.
two_replayed :
    replay_loop services reader 6 2 idle
    ≡ some (
      ret tt,
      record {
        world = message (1 ∷ []) ∷ [];
        replayed = 2;
        journal =
            publish (text "{}") true
            ∷ commit true
            ∷ commit true
            ∷ commit true
            ∷ publish (text "{}") true
            ∷ commit true
            ∷ [];
      },
    )
unfolding replay_loop replay_round after_getone after_message replay_message skip_garbage
    replay_value publish_value after_send payload_of commit_one get field_of truthy
two_replayed = refl

-- The whole script on a topic of one message: the producer is stopped before the consumer.
abbrev clients : Clients (Run (List Value))
clients = record { start_client = λ p r. (ret tt, r); stop_client = λ p r. (ret tt, r) }

abbrev done : Run (List Value)
done = record { world = []; replayed = 1; journal = publish (text "{}") true ∷ commit true ∷ [] }

from_start_to_end :
    replay_dlq services reader clients 2 10 (record {
      run = record { world = message (1 ∷ []) ∷ []; replayed = 0; journal = [] };
      running = false;
      acts = [];
    })
    ≡ some (
      ret tt,
      record {
        run = done;
        running = false;
        acts =
            opened consumer true
            ∷ opened producer true
            ∷ closed producer true
            ∷ closed consumer true
            ∷ [];
      },
    )
unfolding replay_dlq open_part close_part replay_loop replay_round after_getone after_message
    replay_message skip_garbage replay_value publish_value after_send payload_of commit_one get
    field_of truthy
from_start_to_end = refl
