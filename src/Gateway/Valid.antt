-- ===== src/Gateway/Valid.antt =====
-- api/models.py: which events are let in, and that they come back from Kafka as they were.
use log_foundry.Prelude.{
  ℕ, suc, ◌≤◌, ◌≡◌, ◌↔◌, sym, ap, ◌∙◌, String, true, Option, none, some, List, length, member, All,
  ret, and_then-ret, ret-ne-raise, ret_inj, arith, subst,
}
use Prim.Native.String
use log_foundry.Consumers.Payload.{Json, null, text, object, Fields, Items, nil, cons, field_of}
use log_foundry.Gateway.Reads.{
  ensure-ret, read-ret, read_service-ret, read_level-ret, read_message-ret, is_service_iff,
  is_message_iff, size_iff,
}
use log_foundry.Gateway.Models.{
  LogEvent, Codecs, levels, read_service, read_level, read_message, read_trace_id, read_id,
  read_timestamp, is_metadata, read_metadata, read_fields, validate, validate_all, validate_batch,
}

-- What is relied on of the codecs: a UUID and a datetime are read back from their texts, and what is
-- encoded is parsed.
pub record Laws {B : Type 0} (c : Codecs B) : Type 0 where
  pub uuid-text :
      (j : Json) (t : String) → Codecs.uuid c j ≡ some t → Codecs.uuid c (text t) ≡ some t
  pub datetime-isoformat : (n : ℕ) → Codecs.datetime c (text (Codecs.isoformat c n)) ≡ some n
  pub parse-encode : (j : Json) → Codecs.parse_json c (Codecs.encode_json c j) ≡ some j

module _ {B : Type 0} (c : Codecs B) where
  -- The bytes of `json.dumps` of the metadata, if there are any.
  abbrev pub metadata_len : Option Fields → ℕ
  metadata_len none = 0
  metadata_len (some fs) = String.len (c.dumps fs)

  -- An event that keeps the limits.
  pub record IsValid (event : LogEvent) : Type 0 where
    pub id : c.uuid (text event.id) ≡ some event.id
    pub service_min : 1 ≤ String.count event.service
    pub service_max : String.count event.service ≤ 256
    pub level : member event.level levels ≡ true
    pub message_max : String.count event.message ≤ 8192
    pub message_bytes : String.len event.message ≤ 8192
    pub metadata_bytes : metadata_len event.metadata ≤ 8192

  is_metadata_iff : (fs : Fields) → (is_metadata c fs ≡ true) ↔ (String.len (c.dumps fs) ≤ 8192)
  unfolding is_metadata
  is_metadata_iff fs = ground arith

  read_metadata-ret :
      (o : Option Json) (m : Option Fields) → read_metadata c o ≡ ret m → metadata_len m ≤ 8192
  unfolding read_metadata
  read_metadata-ret none m h = subst (λ x. metadata_len x ≤ 8192) (ret_inj h) (omega arith)
  read_metadata-ret (some null) m h = subst (λ x. metadata_len x ≤ 8192) (ret_inj h) (omega arith)
  read_metadata-ret (some (object fs)) m h =
      let (ok, e) = ensure-ret (is_metadata c fs) (some fs) m h in
      subst (λ x. metadata_len x ≤ 8192) e ((is_metadata_iff fs).0 ok)
  read_metadata-ret (some _) m h = absurd (ret-ne-raise (sym h))

  module _ (laws : Laws c) where
    read_id-ret :
        (new_id : String) (o : Option Json) (t : String)
        → c.uuid (text new_id) ≡ some new_id
        → read_id c new_id o ≡ ret t
        → c.uuid (text t) ≡ some t
    unfolding read_id
    read_id-ret new_id none t fresh h =
        ap (λ x. c.uuid (text x)) (sym (ret_inj h)) ∙ fresh ∙ ap (λ x. some x) (ret_inj h)
    read_id-ret new_id (some j) t fresh h = laws.uuid-text j t (read-ret (c.uuid j) t h)

    read_fields-IsValid :
        (new_id : String) (now : ℕ) (fs : Fields) (event : LogEvent)
        → c.uuid (text new_id) ≡ some new_id
        → read_fields c new_id now fs ≡ ret event
        → IsValid event
    unfolding read_fields
    read_fields-IsValid new_id now fs event fresh h =
        let (id, e1, h1) = and_then-ret (read_id c new_id (field_of "id" fs)) _ event h in
        let (service, e2, h2) = and_then-ret (read_service (field_of "service" fs)) _ event h1 in
        let (level, e3, h3) = and_then-ret (read_level (field_of "level" fs)) _ event h2 in
        let (message, e4, h4) = and_then-ret (read_message (field_of "message" fs)) _ event h3 in
        let (timestamp, e5, h5) =
          and_then-ret (read_timestamp c now (field_of "timestamp" fs)) _ event h4 in
        let (trace_id, e6, h6) = and_then-ret (read_trace_id (field_of "trace_id" fs)) _ event h5 in
        let (metadata, e7, h7) =
          and_then-ret (read_metadata c (field_of "metadata" fs)) _ event h6 in
        subst IsValid (ret_inj h7) (record {
          id = read_id-ret new_id (field_of "id" fs) id fresh e1;
          service_min =
              ((is_service_iff service).0 (read_service-ret (field_of "service" fs) service e2)).0;
          service_max =
              ((is_service_iff service).0 (read_service-ret (field_of "service" fs) service e2)).1;
          level = read_level-ret (field_of "level" fs) level e3;
          message_max =
              ((is_message_iff message).0 (read_message-ret (field_of "message" fs) message e4)).0;
          message_bytes =
              ((is_message_iff message).0 (read_message-ret (field_of "message" fs) message e4)).1;
          metadata_bytes = read_metadata-ret (field_of "metadata" fs) metadata e7;
        })

    pub validate-IsValid :
        (new_id : String) (now : ℕ) (j : Json) (event : LogEvent)
        → c.uuid (text new_id) ≡ some new_id
        → validate c new_id now j ≡ ret event
        → IsValid event
    unfolding validate
    validate-IsValid new_id now (object fs) event fresh h =
        read_fields-IsValid new_id now fs event fresh h
    validate-IsValid new_id now _ event fresh h = absurd (ret-ne-raise (sym h))

    validate_all-IsValid :
        (new_id : ℕ → String) (n now : ℕ) (items : Items) (events : List LogEvent)
        → ((m : ℕ) → c.uuid (text (new_id m)) ≡ some (new_id m))
        → validate_all c new_id n now items ≡ ret events
        → All IsValid events
    unfolding validate_all
    validate_all-IsValid new_id n now nil events fresh h = subst (All IsValid) (ret_inj h) tt
    validate_all-IsValid new_id n now (cons j items) events fresh h =
        let (event, e, g) = and_then-ret (validate c (new_id n) now j) _ events h in
        let (more, f, i) = and_then-ret (validate_all c new_id (suc n) now items) _ events g in
        subst (All IsValid) (ret_inj i) (
          validate-IsValid (new_id n) now j event (fresh n) e,
          validate_all-IsValid new_id (suc n) now items more fresh f,
        )

    -- A batch that is let in has from one to a thousand events, each with a name of 1 to 256
    -- characters, one of the five levels, a message of at most 8192 characters and bytes, and
    -- metadata of at most 8192 bytes.
    pub validate_batch-IsValid :
        (new_id : ℕ → String) (now : ℕ) (items : Items) (events : List LogEvent)
        → ((m : ℕ) → c.uuid (text (new_id m)) ≡ some (new_id m))
        → validate_batch c new_id now items ≡ ret events
        → (1 ≤ length events) × (length events ≤ 1000) × All IsValid events
    unfolding validate_batch
    validate_batch-IsValid new_id now items events fresh h =
        let (found, e, g) = and_then-ret (validate_all c new_id 0 now items) _ events h in
        let (ok, f) = ensure-ret _ found events g in
        let (least, most) = size_iff found ok in
        subst (λ l. (1 ≤ length l) × (length l ≤ 1000) × All IsValid l) f
          (least, most, validate_all-IsValid new_id 0 now items found fresh e)
