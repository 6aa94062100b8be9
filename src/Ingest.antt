-- ===== src/Ingest.antt =====
-- api/routers/ingest.py and api/producers/kafka_producer.py: how events get from a request to Kafka.
pub mod Producer
pub mod Router
pub mod Flow
pub mod Answers
mod Tests
