-- ===== src/Gateway/Replies.antt =====
-- api/models.py: the bodies of the answers, as JSON.
use log_foundry.Prelude.{String, decimal, List, [], ◌∷◌, length}
use log_foundry.Consumers.Payload.{
  Json, number, boolean, text, array, object, Items, nil, cons, field, end,
}
use log_foundry.Query.Cache.{Response}
use log_foundry.Gateway.Health.{HealthStatus}

-- IngestResponse
unfoldable pub ingest_response : String → Json
ingest_response id = object (field "status" (text "accepted") (field "id" (text id) end))

unfoldable pub texts : List String → Items
texts [] = nil
texts (t ∷ ts) = cons (text t) (texts ts)

-- BatchIngestResponse, which `ingest_batch` makes of its identifiers.
unfoldable pub batch_response : List String → Json
unfolding texts
batch_response ids = object (
    field "status" (text "accepted")
      (field "count" (number (decimal (length ids))) (field "ids" (array (texts ids)) end)))

-- QueryResponse; the time is printed by the caller.
unfoldable pub query_response : String → Response → Json
query_response query_time_ms r = object (
    field "results" (array r.results) (
      field "count" (number (decimal r.count)) (
        field "cache_hit" (boolean r.cache_hit)
          (field "query_time_ms" (number query_time_ms) end))))

-- HealthStatus
unfoldable pub health_response : HealthStatus → Json
health_response h = object (
    field "status" (text h.status) (
      field "kafka" (boolean h.kafka) (
        field "postgres" (boolean h.postgres)
          (field "redis" (boolean h.redis) (field "version" (text h.version) end)))))
