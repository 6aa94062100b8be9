-- ===== src/Metrics/Consumer.antt =====
-- consumers/metrics_consumer.py: MetricsConsumer from its start to its end.
use log_foundry.Consumers.Kafka.{Kafka}
use log_foundry.Metrics.Redis.{Redis}
