-- ===== src/Sdk/Tests.antt =====
-- The handler on concrete input.
use log_foundry.Prelude.{
  String, ◌≡◌, refl, Bool, true, false, if◌then◌else◌, Option, none, some, List, [], ◌∷◌, arith,
  member, lookup, insert,
}
use mathlib.Core.List.Perm
use log_foundry.Sdk.Event.{text, num, LogRecord, Event, metadata_of}
use log_foundry.Sdk.Handler.{Handler, init, emit, emit_locked, flush_locked}
use log_foundry.Sdk.Buffer.{IsBounded}
use log_foundry.Sdk.Threads.{System, Step, Reach, Conserves, Reach-IsBounded, step_emit, step_flush}

abbrev event : String → Event
event id = record {
  id = id;
  service = "pay";
  level = "INFO";
  message = "hi";
  timestamp = "2024-01-01T00:00:00+00:00";
  metadata = [];
}

-- A printer that refuses the event "bad".
abbrev dumps : List Event → Option String
dumps [] = some ""
dumps (e ∷ es) = elim (dumps es) [
  | none ↦ none
  | some s ↦ if member "bad" (e.id ∷ []) then none else some e.id
]

handler : Bool → Handler
handler mode = init "pay" "http://localhost:8000//" mode 2 3 false

stripped : (handler true).endpoint ≡ "http://localhost:8000"
unfolding handler init
stripped = refl

abbrev idle : Handler → System
idle h = record { handler = h; in_flight = []; sent = []; taken = []; accepted = [] }

start : (mode : Bool) → Conserves (idle (handler mode)) × IsBounded (handler mode)
unfolding handler init
start mode = (record { order = refl; batches = Perm.refl [] }, omega arith)

-- Two events fill a batch, a flush takes it, the handler is shut while it is under way.
abbrev after_two : System
after_two = step_flush (step_emit 2 (event "e2") (step_emit 1 (event "e1") (idle (handler true))))

two_logged : Reach dumps (idle (handler true)) after_two
two_logged =
    Reach.next
      (Reach.next (Reach.next Reach.here (Step.emit 1 (event "e1") _)) (Step.emit 2 (event "e2") _))
      (Step.flush _)

taken_two : after_two.taken ≡ (event "e1" ∷ event "e2" ∷ []) ∷ []
unfolding handler init step_emit step_flush emit_locked flush_locked
taken_two = refl

Reach-IsBounded_example : IsBounded after_two.handler
Reach-IsBounded_example = Reach-IsBounded dumps two_logged (start true).1

abbrev sync_handler : Handler
sync_handler = record (handler false) {
  async_mode = false;
  closed = false;
  buffer = [];
  max_buffer_size = 3;
}

abbrev record_with_extra : LogRecord
record_with_extra = record {
  name = "payments";
  module_name = "pay";
  func_name = "charge";
  lineno = 7;
  levelname = "INFO";
  created = 0;
  formatted = none;
  get_message = "hi";
  attributes = ("thread", num 1) ∷ ("user_id", text "u_1") ∷ [];
}

extra_kept : lookup "user_id" (metadata_of record_with_extra) ≡ some (text "u_1")
unfolding metadata_of lookup insert member
extra_kept = refl
