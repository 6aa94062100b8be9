-- ===== src/Lib.antt =====
-- LogFoundry, a log ingestion and query platform, and the theorems that make its parts correct.
--
-- A service logs through the SDK (sdk/logger.py), whose handler collects events and posts them to the
-- API. The API limits each client's rate (api/middleware/rate_limiter.py) and hands the events to
-- Kafka. From there the consumers take them (consumers/*.py): one writes them to PostgreSQL, one
-- counts them, one matches them against alert rules; what cannot be processed goes to a dead-letter
-- topic. The API answers searches and the counters, which the command line client (sdk/cli.py) shows.
--
-- Files.
-- - Prelude: the library names in use; lists, dictionaries, texts, integers and Boolean tests over
--   the native numbers; `Outcome`, a Python call that returns or raises.
-- - RateLimiter, api/middleware/rate_limiter.py. RateLimiter/Script: `check`, `get_remaining` and
--   their Lua scripts, over the interface of RateLimiter/Redis for the sorted sets. Window: the
--   sliding window they implement. Tally, Tracks, Same, Answers, Refines: that they do. Simple: a concrete
--   store.
-- - Sdk, sdk/logger.py. Sdk/Event: the event that a record becomes. Handler: every method of
--   `LogFoundryHandler`, divided into the part under the lock and the request after it. Buffer and
--   Calls: the methods one by one. Threads, Drained: their interleavings, a step being a part under the
--   lock or a request.
-- - Consumers. Kafka: the interface of the clients. Base: `BaseConsumer` (base_consumer.py), its
--   journal being what it does, in order; Retry, Delivery, Loop: its theorems. Payload: JSON values
--   and what is read of them. LogWriter (log_writer.py): Row, the parsing of a message; Insert,
--   the batch loop over an interface for the database; Sorted, Settles, Batch, Calm, Advance, Loop,
--   Loss: its theorems. Sample: a concrete broker and database.
-- - Partitions, scripts/manage_partitions.py. Calendar: `add_months`, dates, months counted from the
--   year 0. Names: the names and days as they are printed, matched and read. Manage: the loops and
--   `manage_partitions`, with a journal of the statements. Plan, Retention: what is created and dropped.
-- - Query, api/routers/query.py. Build: `_build_query`, its statement as conditions with numbered
--   placeholders, and its text up to white space. Meaning: what the statement asks for.
--   Cache: `query_logs`; Coherence: that the cache answers what the database answered.
-- - Ingest. Producer, api/producers/kafka_producer.py: `KafkaLogProducer`. Router,
--   api/routers/ingest.py: the handlers and their rate limit. Flow: requests and tasks on one event
--   loop, a step being what runs between two `await`s. Answers: what a batch is answered. In Router a
--   batch sends its events one after the other; Flow lets other steps come in between.
-- - Consumers/Alerts, consumers/alert_consumer.py: the rules and `process`; Alerts/Fires: which alerts
--   it fires.
-- - Replay, scripts/replay_dlq.py: the loop, on fuel that counts its rounds; Moves, Limits:
--   one round; Loop: that as many rounds as there are messages, and one, are enough; Script: the
--   whole script; Envelope, Letters: a message on its way through the dead-letter topic.
-- - Metrics. Count, consumers/metrics_consumer.py: `process`, over the counters of Metrics/Redis;
--   Totals: what they come to. Exposition, api/routers/query.py: `get_metrics`, its lines and its text;
--   Worth, Shows, Endpoint: what it shows of the counters; Split: the key of a service and a level;
--   Consumer: MetricsConsumer from its start to its end. Sample: a Redis that is its counters.
-- - Consumers/Lifecycle, `start`, the shutdown signal and `_cleanup` of the consumers, a client being
--   opened or closed; Parts, Shutdown: how a consumer ends; Invariants: what holds at
--   its end.
-- - Gateway. Health, Lifespan, api/main.py: the readiness check and the clients of the application;
--   Models, api/models.py: the validation of events, over pydantic's codecs; Reads, Valid: what is let
--   in; Pipeline: what the consumers read of it.
-- - Cli, sdk/cli.py. Since: `_parse_since`. Tail: `tail` and its requests, a poll being one round on
--   fuel, which the user's interrupt ends; Once, Account: what it prints. Format: the line of an entry.
--   Stats: `stats`; Shows: that it reads what `get_metrics` prints.
-- - Gateway, sdk/logger.py and api/models.py. Body: the JSON body of `_send_batch` and its validation;
--   Client: which batches are let in; Ensure: its tests; Loss: batches that are lost; Journey: from a
--   log call to a row; Stored: from the API to the table. Replies: the bodies of the answers.
--   Tracing, api/main.py: `_setup_otel`.
-- - Query/Params, api/routers/query.py: the reading of the parameters, and `QueryRequest` of
--   api/models.py; Query/Typed: the types of the statement's parameters. Cli/Asks, Cli/Answered: that
--   the API reads what `tail` asks for.
-- - Metrics/Alerts: the alerts of consumers/alert_consumer.py as `get_metrics` shows them.
-- - Logging, api/main.py and consumers/base_consumer.py: the loggers of a process.
-- - Benchmark, scripts/benchmark_throughput.py. Workers: the requests, the queue and the workers on one
--   event loop, a step being what a worker does between two `await`s; Account, Ends: what was
--   answered; Turns: how many steps it takes. Report: the counts and percentiles; Sorted, Rank: what
--   they are; Main: both together.
--
-- Conventions. Redis, Kafka and PostgreSQL are records of calls and laws, parameters of the code
-- that uses them; so are Python's codecs, clocks and random identifiers. A loop that runs until a
-- signal takes the number of its rounds or, in Consumers/Lifecycle, whether the signal comes in each
-- of them; retries take the attempts that are left, which start at the limit of the code. The
-- attributes of a class are the fields of a record.
--
-- Not modelled: the construction of clients and servers, which calls libraries; what is logged; the
-- routes, which FastAPI serves; the parsing of arguments and the styles of the terminal; and what is
-- left out of a part, by the comments of its file.
pub mod Prelude
pub mod RateLimiter
pub mod Sdk
pub mod Consumers
pub mod Partitions
pub mod Query
pub mod Ingest
pub mod Replay
pub mod Metrics
pub mod Cli
pub mod Gateway
pub mod Logging
pub mod Benchmark
