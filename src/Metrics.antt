-- ===== src/Metrics.antt =====
-- The counters of events: consumers/metrics_consumer.py, which raises them, and `get_metrics` of
-- api/routers/query.py, which prints them.
pub mod Redis
pub mod Count
pub mod Totals
pub mod Exposition
pub mod Worth
pub mod Shows
pub mod Endpoint
pub mod Split
pub mod Sample
pub mod Consumer
pub mod Alerts
mod AlertTests
mod Tests
