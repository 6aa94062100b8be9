-- ===== src/Query/Tests.antt =====
-- The search on concrete input.
use log_foundry.Prelude.{
  ◌≡◌, refl, ap, ◌∙◌, String, true, false, if◌then◌else◌, str_eq, eq_iff, Option, none, some, [],
  ◌∷◌, decimal, length, arith, Dict, lookup, insert, lookup-insert, Outcome, ret,
}
use log_foundry.Consumers.Payload.{null, text, array, object, field, end, Items, nil, cons, Reader}
use log_foundry.Query.Build.{
  Filters, count, add, build, build_query, print, print_statement, where_clause, join_and,
}
use log_foundry.Query.Meaning.{Row, meets_all, placeholder, wanted, build_query_lem}
use log_foundry.Query.Typed.{IsTyped, build_query-IsTyped}
use log_foundry.Query.Cache.{
  DbRow, Services, Response, query_logs, records_of, record_of, metadata_json, cache_key,
}
use log_foundry.Query.Coherence.{hit_of, query_logs-again}

-- The errors of one service since instant 50, ten at most.
abbrev errors : Filters
errors = record {
  service = some "pay";
  level = some "ERROR";
  search = none;
  since = some 50;
  until = none;
  limit = 10;
}

abbrev row : Row
row = record { service = "pay"; level = "ERROR"; message = "no"; timestamp = 50 }

printed :
    print_statement (build_query errors).0
    ≡ "SELECT id, service, level, message, timestamp, trace_id, metadata FROM logs WHERE service = $1 AND level = $2 AND timestamp >= $3 ORDER BY timestamp DESC LIMIT $4"
unfolding print_statement where_clause join_and print build_query build add decimal
printed = refl

build_query-IsTyped_example : IsTyped (build_query errors).0 (build_query errors).1
build_query-IsTyped_example = build_query-IsTyped errors

build_query_lem_example :
    (meets_all str_eq row (build_query errors).1 (build_query errors).0.conditions
      ≡ wanted str_eq errors row)
    × (placeholder (build_query errors).1 (build_query errors).0.limit ≡ some (count 10))
    × (length (build_query errors).1 ≡ (build_query errors).0.limit)
build_query_lem_example = build_query_lem str_eq errors row

-- A store of one table row; the cache is a dictionary, and its JSON texts stand for this row.
abbrev db_row : DbRow
db_row = record {
  id = "1";
  service = "pay";
  level = "ERROR";
  message = "no";
  timestamp = "2024-01-01T00:00:00+00:00";
  trace_id = none;
  metadata = none;
}

abbrev found : Items
found =
    cons
      (object (
        field "id" (text "1") (
          field "service" (text "pay") (
            field "level" (text "ERROR") (
              field "message" (text "no") (
                field "timestamp" (text "2024-01-01T00:00:00+00:00")
                  (field "trace_id" null (field "metadata" null end))))))))
      nil

abbrev reader : Reader
reader = record {
  decode = λ b. none;
  loads = λ t. some (array found);
  dumps = λ j. "";
  show = λ j. "";
  nonzero = λ t. true;
  uuid = λ j. none;
  fromisoformat = λ t. none;
}

abbrev got_of : Option String → Outcome (Option String)
got_of o = ret o

self :
    (key value : String) (o : Option String)
    → (if str_eq key key then some value else o) ≡ some value
self key value o = ground (arith, eq_iff key key)

pub got :
    (key value : String) (cache : Dict String)
    → got_of (lookup key (insert key value cache)) ≡ ret (some value)
got key value cache =
    ap (λ o. got_of o) (lookup-insert key key value cache ∙ self key value (lookup key cache))

abbrev services : Services (Dict String)
services = record {
  get = λ key cache. (ret (lookup key cache), cache);
  setex = λ key ttl value cache. (ret tt, insert key value cache);
  fetch = λ q ps cache. (ret (db_row ∷ []), cache);
  get-setex = λ key ttl value cache h. got key value cache;
}

abbrev answer : Response
answer = record { results = found; count = 1; cache_hit = false }

first_answer : (query_logs reader (λ t. t) decimal services errors []).0 ≡ ret answer
unfolding query_logs records_of record_of metadata_json cache_key lookup insert
first_answer = refl

query_logs-again_example :
    (query_logs reader
      (λ t. t)
      decimal
      services
      errors
      (query_logs reader (λ t. t) decimal services errors []).1).0
    ≡ ret (hit_of answer)
query_logs-again_example =
    query_logs-again reader (λ t. t) decimal services errors [] answer first_answer refl refl
