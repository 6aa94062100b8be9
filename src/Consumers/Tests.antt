-- ===== src/Consumers/Tests.antt =====
-- The consumers on concrete input.
use log_foundry.Prelude.{
  ◌≡◌, refl, true, false, List, [], ◌∷◌, if◌then◌else◌, ◌==◌, decimal, ret, raise, other,
}
use log_foundry.Consumers.Kafka.{Call, Message}
use log_foundry.Consumers.Payload.{item, get, truthy, load_payload, field_of}
use log_foundry.Consumers.LogWriter.Row.{parse, metadata_of, uuid_of, stamp_of}
use log_foundry.Consumers.Base
use log_foundry.Consumers.Base.{Act, Run, attempt, sleep, dead_letter, commit, loop_error}
use log_foundry.Consumers.Loop.{IsSafe}
use log_foundry.Consumers.LogWriter.Insert.{handle_batch, round}
use log_foundry.Consumers.LogWriter.Insert
use log_foundry.Consumers.LogWriter.Loop.{IsSafe as IsDurable}
use log_foundry.Consumers.LogWriter.Loss.{Abandons, round-Abandons}
use log_foundry.Consumers.Sample.{World, broker, server, reader, codec, settings, line, fresh}

-- A consumer that cannot process message 2.
abbrev picky : Message → Call World (Unit {0})
picky m w = (if m.offset == 2 then raise other else ret tt, w)

abbrev idle : Run World
idle = record { world = fresh (((0, line 1 ∷ line 2 ∷ []) ∷ []) ∷ []); journal = [] }

-- Three attempts with waits of one and two seconds, then the dead-letter topic.
given_up :
    (Base.run_with_retry broker codec settings picky 3 (line 2) idle).journal
    ≡ attempt (line 2) false
      ∷ sleep 1
      ∷ attempt (line 2) false
      ∷ sleep 2
      ∷ attempt (line 2) false
      ∷ dead_letter (line 2) true
      ∷ []
unfolding Base.run_with_retry Base.retry Base.wait Base.attempt_once Base.send_to_dead_letter
    Base.try_dead_letter Base.letter_of Base.decode_optional
given_up = refl

-- A batch of one event, one message that is no text, and another event.
abbrev mixed : List Message
mixed = line 1 ∷ line 0 ∷ line 2 ∷ []

mixed_handled : (handle_batch broker (server true) reader codec settings mixed idle).0 ≡ ret tt
unfolding handle_batch Insert.after_insert Insert.parse_batch Insert.insert_batch Insert.after_many
    Insert.insert_many Insert.fall_back Insert.insert_each parse load_payload item field_of get
    stamp_of uuid_of truthy metadata_of decimal
mixed_handled = refl

abbrev single : Run World
single = record { world = fresh (((0, line 1 ∷ []) ∷ []) ∷ []); journal = [] }

-- While the pool is down the batch is lost.
no_connection :
    (Insert.insert_batch broker
      (server false)
      (Insert.parse_batch reader (line 1 ∷ []))
      (record (fresh []) { delivered = line 1 ∷ [] })).0
    ≡ raise other
unfolding Insert.parse_batch Insert.insert_batch Insert.after_many Insert.insert_many
    Insert.fall_back Insert.insert_each parse load_payload item field_of get stamp_of uuid_of truthy
    metadata_of decimal
no_connection = refl

round-Abandons_example :
    Abandons broker
      (server false)
      reader
      codec
      settings
      single
      (line 1 ∷ [])
      (round broker (server false) reader codec settings single)
round-Abandons_example =
    round-Abandons broker (server false) reader codec settings (line 1) [] 0 single other refl
      no_connection
