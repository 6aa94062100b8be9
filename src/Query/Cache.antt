-- ===== src/Query/Cache.antt =====
-- api/routers/query.py: `query_logs` and its cache.
use log_foundry.Prelude.{
  ℕ, suc, String, ◌≡◌, Bool, true, false, Option, none, some, List, [], ◌∷◌, ◌^^◌, decimal, str_eq,
  if◌then◌else◌, Outcome, ◌>>=◌, ret, raise, json_error, type_error,
}
use log_foundry.Consumers.Payload.{
  Json, null, text, number, array, object, Items, nil, cons, Fields, field, end, Reader,
}
use log_foundry.Query.Build.{Filters, Param, Statement, build_query}

-- A row as the database driver hands it out, its identifier and time as texts.
pub record DbRow : Type 0 where
  pub id : String
  pub service : String
  pub level : String
  pub message : String
  pub timestamp : String
  pub trace_id : Option String
  pub metadata : Option String

-- Redis and the database, and one thing that Redis documents: a value that was set can be read until
-- it expires.
pub record Services (S : Type 0) : Type 0 where
  pub get : String → S → Outcome (Option String) × S
  pub setex : String → ℕ → String → S → Outcome (Unit {0}) × S
  -- `pool.acquire` and `fetch`
  pub fetch : Statement → List Param → S → Outcome (List DbRow) × S
  pub get-setex :
      (key : String) (ttl : ℕ) (value : String) (s : S)
      → (setex key ttl value s).0 ≡ ret tt
      → (get key (setex key ttl value s).1).0 ≡ ret (some value)

pub record Response : Type 0 where
  pub results : Items
  pub count : ℕ
  pub cache_hit : Bool

abbrev pub size : Items → ℕ
size nil = 0
size (cons j items) = suc (size items)

-- An entry of the cache key, unless its value is None.
abbrev pub entry : {A : Type 0} → String → Option A → (A → Json) → Fields → Fields
entry name none json rest = rest
entry name (some x) json rest = field name (json x) rest

abbrev pub optional_text : Option String → Json
optional_text none = null
optional_text (some t) = text t

-- What was read from the cache, `none` where `json.loads` raises.
abbrev pub answer_of : Option Json → Outcome Response
answer_of none = raise json_error
answer_of (some (array items)) =
    ret (record { results = items; count = size items; cache_hit = true })
answer_of (some _) = raise type_error

module _ (rd : Reader) (sha256 : String → String) (isoformat : ℕ → String) where
  -- `_build_cache_key`: the names in alphabetical order.
  unfoldable pub cache_key : Filters → String
  cache_key f =
      "query_cache:"
      ^^ sha256 (
          rd.dumps (
            object (
              entry "level" f.level text (
                field "limit" (number (decimal f.limit)) (
                  entry "search" f.search text (
                    entry "service" f.service text (
                      entry "since" f.since (λ t. text (isoformat t))
                        (entry "until" f.until (λ t. text (isoformat t)) end))))))))

  -- `json.loads` of a metadata text that is not empty
  unfoldable pub metadata_json : Option String → Outcome Json
  metadata_json none = ret null
  metadata_json (some t) =
      if str_eq t ""
      then ret (text "")
      else elim (rd.loads t) [ none ↦ raise json_error | some j ↦ ret j ]

  unfoldable pub record_of : DbRow → Outcome Json
  unfolding metadata_json
  record_of row = do
    metadata ← metadata_json row.metadata
    ret (
        object (
          field "id" (text row.id) (
            field "service" (text row.service) (
              field "level" (text row.level) (
                field "message" (text row.message) (
                  field "timestamp" (text row.timestamp) (
                    field "trace_id" (optional_text row.trace_id)
                      (field "metadata" metadata end))))))))

  unfoldable pub records_of : List DbRow → Outcome Items
  unfolding record_of
  records_of [] = ret nil
  records_of (row ∷ rows) = do j ← record_of row; items ← records_of rows; ret (cons j items)

  module _ {S : Type 0} (v : Services S) where
    -- What a hit answers: `json.loads` of the value, and its `len`.
    unfoldable pub from_cache : String → Outcome Response
    from_cache cached = answer_of (rd.loads cached)

    -- `setex`, and the answer of a miss.
    abbrev pub after_setex : Items → Outcome (Unit {0}) × S → Outcome Response × S
    after_setex items (ret _, s) =
        (ret (record { results = items; count = size items; cache_hit = false }), s)
    after_setex items (raise e, s) = (raise e, s)

    abbrev pub after_records : Filters → Outcome Items → S → Outcome Response × S
    after_records f (ret items) s =
        after_setex items (v.setex (cache_key f) 30 (rd.dumps (array items)) s)
    after_records f (raise e) s = (raise e, s)

    abbrev pub after_fetch : Filters → Outcome (List DbRow) × S → Outcome Response × S
    after_fetch f (ret rows, s) = after_records f (records_of rows) s
    after_fetch f (raise e, s) = (raise e, s)

    abbrev pub after_get : Filters → Outcome (Option String) × S → Outcome Response × S
    after_get f (raise e, s) = (raise e, s)
    after_get f (ret (some cached), s) = (from_cache cached, s)
    after_get f (ret none, s) = after_fetch f (v.fetch (build_query f).0 (build_query f).1 s)

    unfoldable pub query_logs : Filters → S → Outcome Response × S
    unfolding cache_key records_of from_cache build_query
    query_logs f s = after_get f (v.get (cache_key f) s)
