-- ===== src/Gateway/Client.antt =====
-- sdk/logger.py and api/models.py: what the API makes of the batches that the SDK posts.
use log_foundry.Prelude.{
  ℕ, suc, ◌≤◌, ◌≡◌, ◌↔◌, ◌⊎◌, refl, ap, ◌∙◌, String, Bool, true, ◌&&◌, none, some, List, [], ◌∷◌,
  map, length, length-map, member, All, Outcome, ret, raise, value_error, and_then-ret, ret_inj,
  arith, subst,
}
use Prim.Native.String
use log_foundry.Sdk.Event.{Event}
use log_foundry.Consumers.Payload.{Json, text, object, Items, cons, Fields, end, field_of}
use log_foundry.Gateway.Models.{
  LogEvent, Codecs, levels, ensure, is_service, is_message, read_service, read_level, read_message,
  read_trace_id, read_id, read_timestamp, is_metadata, read_metadata, read_fields, validate,
  validate_all, validate_batch,
}
use log_foundry.Gateway.Ensure.{
  four_tests, two_tests, and_true, ensure_iff, sized, sized_iff, bound_test,
}
use log_foundry.Gateway.Body.{
  metadata_json, event_fields, event_json, events_json, body_json, validate_body, read_batch,
}

module _ {B : Type 0} (c : Codecs B) (other_json : ℕ → Outcome Json) where
  -- The metadata of an event as JSON, where JSON can hold it.
  abbrev pub fields_of : Event → Fields
  fields_of e = elim (metadata_json other_json e.metadata) [ ret fs ↦ fs | raise x ↦ end ]

  abbrev pub instant_of : Event → ℕ
  instant_of e = elim (c.datetime (text e.timestamp)) [ none ↦ 0 | some t ↦ t ]

  -- The event that the API makes of one of the SDK.
  abbrev pub log_event_of : Event → LogEvent
  log_event_of e = record {
    id = e.id;
    service = e.service;
    level = e.level;
    message = e.message;
    timestamp = instant_of e;
    trace_id = none;
    metadata = some (fields_of e);
  }

  -- The identifier and the time are read back.
  pub record IsPrinted (e : Event) : Type 0 where
    pub id : c.uuid (text e.id) ≡ some e.id
    pub time : c.datetime (text e.timestamp) ≡ some (instant_of e)

  -- What the API asks of an event.
  pub record Fits (e : Event) : Type 0 where
    pub service_min : 1 ≤ String.count e.service
    pub service_max : String.count e.service ≤ 256
    pub level : member e.level levels ≡ true
    pub message_max : String.count e.message ≤ 8192
    pub message_bytes : String.len e.message ≤ 8192
    pub metadata_bytes : String.len (c.dumps (fields_of e)) ≤ 8192

  abbrev fits : Event → Bool
  fits e =
      is_service e.service
      && (member e.level levels && (is_message e.message && is_metadata c (fields_of e)))

  abbrev all_fit : List Event → Bool
  all_fit [] = true
  all_fit (e ∷ events) = fits e && all_fit events

  fits_iff : (e : Event) → (fits e ≡ true) ↔ Fits e
  unfolding is_service is_message is_metadata
  fits_iff e = (λ h. ground arith, λ h. ground arith)

  -- Reading an event is a single test.
  validate-event :
      (new_id : String) (now : ℕ) (e : Event)
      → IsPrinted e
      → validate c new_id now (object (event_fields e (fields_of e)))
        ≡ ensure (fits e) (log_event_of e)
  unfolding validate read_fields read_id read_timestamp read_service read_level read_message
      read_trace_id read_metadata field_of
  validate-event new_id now e p =
      rw (p.id, p.time)
        (four_tests (is_service e.service) (member e.level levels) (is_message e.message)
          (is_metadata c (fields_of e)) _ _ _ _
          (λ service level message metadata. record {
            id = e.id;
            service = service;
            level = level;
            message = message;
            timestamp = instant_of e;
            trace_id = none;
            metadata = metadata;
          }))

  event_json-ret :
      (e : Event) (j : Json)
      → event_json other_json e ≡ ret j
      → object (event_fields e (fields_of e)) ≡ j
  unfolding event_json
  event_json-ret e j h =
      let (fs, e1, h1) = and_then-ret (metadata_json other_json e.metadata) _ j h in
      rw (e1, fields_of) (ret_inj h1)

  validate_all-events :
      (new_id : ℕ → String) (n now : ℕ) (events : List Event) (items : Items)
      → All IsPrinted events
      → events_json other_json events ≡ ret items
      → validate_all c new_id n now items ≡ ensure (all_fit events) (map log_event_of events)
  unfolding validate_all events_json
  validate_all-events new_id n now [] items p h =
      subst (λ x. validate_all c new_id n now x ≡ ret []) (ret_inj h) refl
  validate_all-events new_id n now (e ∷ events) items (p, q) h =
      let (j, e1, h1) = and_then-ret (event_json other_json e) _ items h in
      let (more, e2, h2) = and_then-ret (events_json other_json events) _ items h1 in
      subst
        (λ x.
          validate_all c new_id n now x
          ≡ ensure (all_fit (e ∷ events)) (map log_event_of (e ∷ events)))
        (ap (λ x. cons x more) (event_json-ret e j e1) ∙ ret_inj h2)
        (rw
          (
            validate-event (new_id n) now e p,
            validate_all-events new_id (suc n) now events more q e2,
          )
          (two_tests (fits e) (all_fit events) (log_event_of e) (map log_event_of events)
            (λ first rest. first ∷ rest)))

  all_fit_iff : (events : List Event) → (all_fit events ≡ true) ↔ All Fits events
  all_fit_iff [] = (λ h. tt, λ h. refl)
  all_fit_iff (e ∷ events) =
      let first = fits_iff e in
      let rest = all_fit_iff events in
      (λ h. let (p, q) = and_true h in (first.0 p, rest.0 q), λ p. rw (first.1 p.0) (rest.1 p.1))

  abbrev let_in : List Event → Bool
  let_in events = all_fit events && sized (map log_event_of events)

  let_in_iff :
      (events : List Event)
      → (let_in events ≡ true) ↔ ((1 ≤ length events) × (length events ≤ 1000) × All Fits events)
  let_in_iff events =
      let all = all_fit_iff events in
      let size = sized_iff (map log_event_of events) in
      let same = length-map log_event_of events in
      (
        λ h.
            let (fit, bound) = and_true h in
            let (least, most) = size.0 bound in (omega arith, omega arith, all.0 fit),
        λ p. rw (all.1 p.2) (size.1 (omega arith, omega arith)),
      )

  validate_body-events :
      (new_id : ℕ → String) (now : ℕ) (events : List Event) (j : Json)
      → All IsPrinted events
      → body_json other_json events ≡ ret j
      → validate_body c new_id now j ≡ ensure (let_in events) (map log_event_of events)
  unfolding body_json validate_body read_batch validate_batch field_of
  validate_body-events new_id now events j p h =
      let (items, e, g) = and_then-ret (events_json other_json events) _ j h in
      subst (λ x. validate_body c new_id now x ≡ ensure (let_in events) (map log_event_of events))
        (ret_inj g)
        (rw (validate_all-events new_id 0 now events items p e)
          (bound_test (all_fit events) (map log_event_of events)))

  -- A batch that the SDK posts is let in, with every event as it was logged, exactly if it has from
  -- one to a thousand events and each of them keeps the limits; if not it is refused as a whole.
  pub validate_body-posted :
      (new_id : ℕ → String) (now : ℕ) (events : List Event) (j : Json)
      → All IsPrinted events
      → body_json other_json events ≡ ret j
      → ((validate_body c new_id now j ≡ ret (map log_event_of events))
          ↔ ((1 ≤ length events) × (length events ≤ 1000) × All Fits events))
        × ((validate_body c new_id now j ≡ ret (map log_event_of events))
            ⊎ (validate_body c new_id now j ≡ raise value_error))
  validate_body-posted new_id now events j p h =
      ensure_iff (let_in events) (map log_event_of events) (validate_body c new_id now j)
        (validate_body-events new_id now events j p h) (let_in_iff events)
