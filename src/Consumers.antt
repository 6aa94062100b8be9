-- ===== src/Consumers.antt =====
-- consumers/*.py: the Kafka consumers.
pub mod Kafka
pub mod Lifecycle
pub mod Parts
pub mod Shutdown
pub mod Invariants
pub mod Base
pub mod Retry
pub mod Delivery
pub mod Loop
pub mod Payload
pub mod LogWriter
pub mod Alerts
mod Startup
pub mod Sample
mod Tests
