-- ===== src/Sdk/Handler.antt =====
-- sdk/logger.py, `LogFoundryHandler`: the state and the methods. A method returns what it comes to
-- and the handler that it leaves.
use Prim.Native.Char.{code}
use Prim.Native.String.{◌++◌ as str_append}
use log_foundry.Prelude.{
  ℕ, ◌+◌, String, Bool, true, false, not, ◌&&◌, Option, none, some, List, [], ◌∷◌, ◌++◌, length,
  str_eq, ltb, leb, ◌==◌, if◌then◌else◌, Outcome, ret, raise, type_error,
}
use log_foundry.Sdk.Event.{LogRecord, Event, event_of}

-- A line that the handler prints on stderr.
pub data Notice : Type 0 where
  buffer_full : ℕ → Notice
  flushed : ℕ → String → Notice
  flush_failed : ℕ → Notice
  background_error : Notice

-- A POST that the handler made, with the events that it carried and whether it was answered.
pub record Request : Type 0 where
  pub url : String
  pub payload : String
  pub events : List Event
  pub answered : Bool

pub record Handler : Type 0 where
  pub service : String
  pub endpoint : String
  pub async_mode : Bool
  pub batch_size : ℕ
  pub max_buffer_size : ℕ
  pub verbose : Bool
  pub buffer : List Event
  pub closed : Bool
  pub last_warning_time : ℕ
  pub flush_event : Bool
  pub requests : List Request
  pub stderr : List Notice

-- `endpoint.rstrip("/")`
unfoldable pub rstrip_slash : String → String
rstrip_slash String.[] = String.[]
rstrip_slash (String.◌∷◌ c s) =
    let rest = rstrip_slash s in
    if str_eq rest "" && code c == b'/' then String.[] else String.◌∷◌ c rest

unfoldable pub init : String → String → Bool → ℕ → ℕ → Bool → Handler
unfolding rstrip_slash
init service endpoint async_mode batch_size max_buffer_size verbose = record {
  service = service;
  endpoint = rstrip_slash endpoint;
  async_mode = async_mode;
  batch_size = batch_size;
  max_buffer_size = max_buffer_size;
  verbose = verbose;
  buffer = [];
  closed = false;
  last_warning_time = 0;
  flush_event = false;
  requests = [];
  stderr = [];
}

-- The buffer is full: warn, unless a warning was printed in the last five seconds. Times are
-- readings of the monotonic clock in milliseconds.
unfoldable pub drop_record : ℕ → Handler → Handler
drop_record now h =
    if ltb (h.last_warning_time + 5000) now
    then record h {
      stderr = h.stderr ++ buffer_full h.max_buffer_size ∷ [];
      last_warning_time = now;
    }
    else h

-- Hand the whole buffer over, empty it.
unfoldable pub take_buffer : Handler → Option (List Event) × Handler
take_buffer h = (some h.buffer, record h { buffer = [] })

-- After the append: send at once in synchronous mode, wake the flush thread at a full batch.
unfoldable pub after_append : Handler → Option (List Event) × Handler
unfolding take_buffer
after_append h =
    if not h.async_mode
    then take_buffer h
    else if leb h.batch_size (length h.buffer)
    then (none, record h { flush_event = true })
    else (none, h)

-- The part of `emit` that holds the lock.
unfoldable pub emit_locked : ℕ → Event → Handler → Option (List Event) × Handler
unfolding drop_record after_append
emit_locked now event h =
    if h.closed
    then (none, h)
    else if leb h.max_buffer_size (length h.buffer)
    then (none, drop_record now h)
    else after_append (record h { buffer = h.buffer ++ event ∷ [] })

-- The part of `flush` that holds the lock.
unfoldable pub flush_locked : Handler → Option (List Event) × Handler
unfolding take_buffer
flush_locked h = elim h.buffer [ [] ↦ (none, h) | event ∷ rest ↦ take_buffer h ]

-- The POST of a batch: its address, its body, and whether it was answered.
unfoldable pub request : Handler → Option String → String → List Event → Request
request h answer payload events = record {
  url = str_append h.endpoint "/ingest/batch";
  payload = payload;
  events = events;
  answered = elim answer [ none ↦ false | some _ ↦ true ];
}

-- What verbose mode prints of it.
unfoldable pub report : Option String → List Event → Notice
report none events = flush_failed (length events)
report (some body) events = flushed (length events) body

-- What the `try` of `_send_batch` leaves: an error of `urlopen` is at most printed.
unfoldable pub post : Option String → String → List Event → Handler → Handler
unfolding request report
post answer payload events h = record h {
  requests = h.requests ++ request h answer payload events ∷ [];
  stderr = if h.verbose then h.stderr ++ report answer events ∷ [] else h.stderr;
}

-- `json.dumps({"events": events})`, `none` where it raises a TypeError, stands as a parameter, and
-- so does what `urlopen` does in each call: the body of the answer, or `none` where it raises.
module _ (dumps : List Event → Option String) where
  unfoldable pub send_batch : Option String → List Event → Handler → Outcome (Unit {0}) × Handler
  unfolding post
  send_batch answer [] h = (ret tt, h)
  send_batch answer (event ∷ events) h = elim (dumps (event ∷ events)) [
    | none ↦ (raise type_error, h)
    | some payload ↦ (ret tt, post answer payload (event ∷ events) h)
  ]

  -- `if events_to_send: self._send_batch(events_to_send)`
  unfoldable pub send_taken :
      Option String → Option (List Event) × Handler → Outcome (Unit {0}) × Handler
  send_taken answer (none, h) = (ret tt, h)
  send_taken answer (some events, h) = send_batch answer events h

  unfoldable pub emit : Option String → ℕ → Event → Handler → Outcome (Unit {0}) × Handler
  unfolding emit_locked send_taken
  emit answer now event h = send_taken answer (emit_locked now event h)

  -- `emit(record)` whole, the making of the event included.
  unfoldable pub emit_record :
      (ℕ → String) → String → Option String → ℕ → LogRecord → Handler → Outcome (Unit {0}) × Handler
  unfolding event_of emit
  emit_record isoformat uuid answer now r h =
      emit answer now (event_of isoformat uuid h.service r) h

  unfoldable pub flush : Option String → Handler → Outcome (Unit {0}) × Handler
  unfolding flush_locked send_taken
  flush answer h = send_taken answer (flush_locked h)

  -- `close`, and `__exit__`, which calls it and returns False.
  unfoldable pub close : Option String → Handler → Outcome (Unit {0}) × Handler
  unfolding flush
  close answer h = flush answer (record h { closed = true })

  -- `except Exception: pass`: only the handler comes back.
  unfoldable pub atexit_flush : Option String → Handler → Handler
  unfolding flush
  atexit_flush answer h = (flush answer (record h { closed = true })).1

  -- One round of the background thread, after its wait: an error of the flush is only printed.
  unfoldable pub background_round : Option String → Handler → Handler
  unfolding flush
  background_round answer h =
      let (outcome, h') = flush answer (record h { flush_event = false }) in
      elim outcome [
        | ret _ ↦ h'
        | raise _ ↦
            if h'.verbose then record h' { stderr = h'.stderr ++ background_error ∷ [] } else h'
      ]

  -- `_background_flush_loop` over the waits that end: it stops at the first test that finds the
  -- handler closed.
  unfoldable pub background_loop : List (Option String) → Handler → Handler
  unfolding background_round
  background_loop [] h = h
  background_loop (answer ∷ waits) h =
      let rest = background_loop waits (background_round answer h) in if h.closed then h else rest
