-- ===== src/Replay/LetterTests.antt =====
-- A dead letter from a consumer to the script, on concrete input.
use log_foundry.Prelude.{
  zero, suc, ◌≡◌, refl, ◌⊎◌, String, true, false, not, str_eq, Bool, Exc, Outcome, Option, none,
  some, List, [], ◌∷◌, ret, raise, arith, ret-ne-raise,
}
use log_foundry.Consumers.Kafka.{Bytes, Message}
use log_foundry.Consumers.Payload.{Json, text, get, field_of, truthy}
use log_foundry.Consumers.Base.{Codec, Settings, DeadLetter, letter_of, decode_optional}
use log_foundry.Replay.{
  Value, Services, Run, publish, commit, replay_round, after_getone, after_message, replay_message,
  skip_garbage, replay_value, publish_value, after_send, payload_of, commit_one,
}
use log_foundry.Replay.Limits.{run_of}
use log_foundry.Replay.Envelope.{envelope}
use log_foundry.Replay.Letters.{Laws, Republished, Skipped, replay_round-letter_of}
use log_foundry.Replay.Tests.{services, reader}

abbrev decode_one : Bytes → Option String
decode_one (suc zero ∷ []) = some "{…}"
decode_one _ = none

abbrev codec : Codec
codec = record { decode = decode_one; dump_letter = λ letter. 2 ∷ [] }

abbrev settings : Settings
settings = record {
  dead_letter_topic = "logs.dead-letter";
  consumer_class = "LogWriterConsumer";
  group_id = "logfoundry-writer";
}

abbrev message : Message
message = record {
  topic = "logs.ingest";
  partition = 2;
  offset = 40;
  key = none;
  value = some (1 ∷ []);
}

abbrev letter : DeadLetter
letter = record {
  original_topic = "logs.ingest";
  original_partition = 2;
  original_offset = 40;
  original_key = none;
  original_value = some "{…}";
  consumer_class = "LogWriterConsumer";
  group_id = "logfoundry-writer";
}

made : letter_of codec settings message ≡ ret letter
unfolding letter_of decode_optional
made = refl

abbrev is_event : Json → Bool
is_event (text t) = not (str_eq t "")
is_event _ = false

-- A topic that holds letters, and a json that knows one of them.
abbrev letters : Services (List Value)
letters = record services { loads = λ b. ret (envelope letter); validate = is_event }

encode-decode_one :
    (content : Bytes) (t : String) → decode_one content ≡ some t → letters.encode t ≡ ret content
encode-decode_one (suc zero ∷ []) t h = refl
encode-decode_one _ t h = cc

done-ne-raise : {e : Exc} → ¬ (◌≡◌ {A = Outcome (Unit {0})} (ret tt) (raise e))
done-ne-raise h = ret-ne-raise h

laws : Laws letters codec
laws = record {
  encode-decode = encode-decode_one;
  validate-empty = refl;
  send-raise = λ content s. done-ne-raise;
  commit-raise = λ s. done-ne-raise;
}

abbrev waiting : Run (List Value)
waiting = record { world = some (2 ∷ []) ∷ []; replayed = 0; journal = [] }

replay_round-letter_of_example :
    Republished letters codec message [] waiting
      (run_of letters reader (replay_round letters reader 10 waiting))
    ⊎ Skipped letters codec message [] waiting
        (run_of letters reader (replay_round letters reader 10 waiting))
replay_round-letter_of_example =
    replay_round-letter_of letters codec reader laws settings message letter 10 waiting [] made refl
      refl (omega arith)

-- Its value was published.
sent_again :
    (run_of letters reader (replay_round letters reader 10 waiting)).journal
    ≡ publish (text "{…}") true ∷ commit true ∷ []
unfolding replay_round after_getone after_message replay_message skip_garbage replay_value
    publish_value after_send payload_of commit_one get field_of truthy envelope
sent_again = refl
